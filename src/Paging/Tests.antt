-- ===== src/Paging/Tests.antt =====
-- Tables with two pages, and with none, and the theorems about pmm.c there.
use oshub.Prelude.{◌≡◌, refl, true, false, ◌==◌, ◌&&◌, if◌then◌else◌, arith, none, Run, done, panic}
use oshub.Links
use oshub.Pmm
use oshub.Paging.{Paging, pte_create, set_entry, free_page, get_pte}
use oshub.Paging.Ranges.{is_empty_table, exit_range}
use oshub.Paging.Forgotten.{exit_range_lem}

-- The directories 1 and 2 lead to the table 3, which maps the first address to page 4 and the
-- second to page 5; page 4 is mapped twice.
abbrev two_pages : Paging
two_pages = record {
  pages = record {
    links = record { prev = λ p. p; next = λ p. p };
    nr_free = 0;
    property = λ _. 0;
    has_property = λ _. false;
    reserved = λ _. false;
    ref = λ p. if p == 4 then 2 else if p == 6 then 0 else 1;
  };
  tables = λ t i.
      if t == 1 && (i == 0)
      then pte_create 102 1
      else if t == 2 && (i == 1)
      then pte_create 103 1
      else if t == 3 && (i == 0)
      then pte_create 104 7
      else if t == 3 && (i == 1)
      then pte_create 105 7
      else 0;
  base = 100;
  npage = 200;
}

-- The directories 1 and 2 lead to the empty table 3 and, for the addresses 2 MiB above, to table 4.
abbrev two_tables : Paging
two_tables = record two_pages {
  tables = λ t i.
      if t == 1 && (i == 0)
      then pte_create 102 1
      else if t == 2 && (i == 1)
      then pte_create 103 1
      else if t == 2 && (i == 2)
      then pte_create 104 1
      else 0;
}

abbrev result : Run Paging → Paging
result (done s) = s
result panic = two_tables

abbrev one_freed : Paging
one_freed = result (free_page 3 two_tables)

abbrev two_freed : Paging
two_freed = result (free_page 2 (set_entry 2 1 0 one_freed))

one_freed-done : free_page 3 two_tables ≡ done one_freed
unfolding free_page Pmm.free_pages
one_freed-done = refl

two_freed-done : free_page 2 (set_entry 2 1 0 one_freed) ≡ done two_freed
unfolding free_page Pmm.free_pages Pmm.merge_right Pmm.merge_left Pmm.enlist Links.is_empty
    Links.add
two_freed-done = refl

no_entries : is_empty_table 512 3 two_tables ≡ true
unfolding is_empty_table
no_entries = refl

exit_range_lem_example :
    (s' : Paging) × (exit_range 2 1 2097152 2101248 two_tables ≡ done s')
    × (s'.pages.nr_free ≡ 2)
    × (s' ≡ set_entry 1 0 0 two_freed)
    × (get_pte false 1 4194304 s' ≡ done (none, s'))
exit_range_lem_example =
    exit_range_lem 0 1 2097152 2101248 2 3 4194304 two_tables one_freed two_freed refl (omega arith)
      (omega arith) refl refl refl refl no_entries one_freed-done two_freed-done refl
