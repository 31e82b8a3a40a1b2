-- ===== src/Paging/Forgotten.antt =====
-- What `exit_range` of pmm.c makes of a directory that holds other tables than those of its range.
use oshub.Prelude.{
  ℕ, suc, not, ◌==◌, Bool-cases, inl, inr, panic, ◌+◌, ◌^◌, ◌≤◌, ◌<◌, ◌≡◌, refl, sym, ◌∙◌, ap, Bool,
  true, false, ltb, ltb-false, and_false, if◌then◌else◌, ◌&&◌, none, Run, done, ◌>>=◌, arith,
}
use mathlib.Core.Path.{subst}
use oshub.Pmm
use oshub.Pmm.{Pages}
use oshub.Paging.{
  Paging, pdx1, pdx0, ptsize, is_valid, page_of, set_entry, free_page, ensure, in_directory,
  get_pte,
}
use oshub.Paging.Routes.{set_entry-at}
use oshub.Paging.Ranges.{
  pdsize, align, word, checked, goes_on, is_empty_table, exit_table, exit_tables, free_directory,
  exit_directory, exit_loop, exit_range,
}

exit_table-empty :
    (s s1 : Paging) (pd0 i pt : ℕ) (free : Bool)
    → is_valid (s.tables pd0 i) ≡ true
    → page_of (s.tables pd0 i) s ≡ done pt
    → is_empty_table 512 pt s ≡ true
    → free_page pt s ≡ done s1
    → exit_table pd0 i free s ≡ done (free, set_entry pd0 i 0 s1)
unfolding exit_table
exit_table-empty s s1 pd0 i pt free valid there empty gone = rw valid (
    ap
      (λ (m : Run ℕ). m >>= λ pt.
        if is_empty_table 512 pt s
        then (free_page pt s >>= λ s'. done (free, set_entry pd0 i 0 s'))
        else done (free, s))
      there
    ∙ rw empty (ap (λ (m : Run Paging). m >>= λ s'. done (free, set_entry pd0 i 0 s')) gone))

stops : (next end : ℕ) → end ≤ next → goes_on next end ≡ false
stops next end le = and_false _ _ (ltb-false le)

exit_tables-last :
    (f : ℕ) (s s' : Paging) (pd0 d0 d1 end : ℕ) (free : Bool)
    → exit_table pd0 (pdx0 d0) free s ≡ done (free, s')
    → end ≤ word (d0 + ptsize)
    → exit_tables (suc f) pd0 d0 d1 end free s ≡ done (free, s')
unfolding exit_tables
exit_tables-last f s s' pd0 d0 d1 end free e le =
    ap
      (λ (m : Run (Bool × Paging)). m >>= λ (free', s').
        (let rest = exit_tables f pd0 (word (d0 + ptsize)) d1 end free' s' in
          if goes_on (word (d0 + ptsize)) end && ltb (word (d0 + ptsize)) (d1 + pdsize)
          then rest
          else done (free', s')))
      e
    ∙ rw (stops (word (d0 + ptsize)) end le) refl

abbrev count_of : Run Paging → ℕ
count_of (done s) = s.pages.nr_free
count_of panic = 0

merge_right_count : (b : ℕ) (s : Pages) → (Pmm.merge_right b s).nr_free ≡ s.nr_free
unfolding Pmm.merge_right
merge_right_count b s = elim (Bool-cases (s.links.next b == Pmm.free_list)) [
  | inl e ↦ rw e refl
  | inr e ↦ elim (Bool-cases (b + s.property b == s.links.next b)) [
    | inl e' ↦ rw (e, e') refl
    | inr e' ↦ rw (e, e') refl
  ]
]

merge_left_count : (b : ℕ) (s : Pages) → (Pmm.merge_left b s).1.nr_free ≡ s.nr_free
unfolding Pmm.merge_left
merge_left_count b s = elim (Bool-cases (s.links.prev b == Pmm.free_list)) [
  | inl e ↦ rw e refl
  | inr e ↦ elim (Bool-cases (s.links.prev b + s.property (s.links.prev b) == b)) [
    | inl e' ↦ rw (e, e') refl
    | inr e' ↦ rw (e, e') refl
  ]
]

-- A page that is given back is one more free page.
free_page_count :
    (p : ℕ) (s s' : Paging)
    → free_page p s ≡ done s'
    → s'.pages.nr_free ≡ Pmm.u32 (s.pages.nr_free + 1)
unfolding free_page Pmm.free_pages Pmm.clear_pages Pmm.enlist
free_page_count p s s' h =
    elim (Bool-cases (not (s.pages.reserved p) && not (s.pages.has_property p))) [
      | inl e ↦ sym (ap count_of (rw e at h)) ∙ merge_right_count _ _ ∙ merge_left_count p _
      | inr e ↦ let clash : ◌≡◌ {A = Run Paging} panic (done s') = rw e at h in absurd cc
    ]

-- A range within one table.
within_table :
    (start end : ℕ)
    → start < 2 ^ 32
    → end ≤ align start ptsize + ptsize
    → end ≤ word (align start ptsize + ptsize)
within_table start end lt le = omega arith

within_directory :
    (start end : ℕ)
    → start < 2 ^ 32
    → end ≤ align start ptsize + ptsize
    → end ≤ word (align start pdsize + pdsize)
within_directory start end lt le = omega arith

cleared : (pgdir i : ℕ) (s : Paging) → is_valid ((set_entry pgdir i 0 s).tables pgdir i) ≡ false
cleared pgdir i s = subst (λ k. is_valid k ≡ false) (sym (set_entry-at s pgdir i 0)) refl

get_pte-cleared :
    (pgdir lb i : ℕ) (s : Paging)
    → pdx1 lb ≡ i
    → get_pte false pgdir lb (set_entry pgdir i 0 s) ≡ done (none, set_entry pgdir i 0 s)
unfolding get_pte ensure
get_pte-cleared pgdir lb i s e =
    let u : Paging = set_entry pgdir i 0 s in
    let gone : is_valid (u.tables pgdir (pdx1 lb)) ≡ false =
      subst (λ k. is_valid (u.tables pgdir k) ≡ false) (sym e) (cleared pgdir i s) in
    ap
      (λ (b : Bool).
        (if b then done (true, u) else done (false, u)) >>= in_directory false pgdir lb)
      gone

-- `exit_range` of a range within one table, which is empty, gives back the table and then the
-- directory `pd0` above it, whatever other tables that directory holds: the count of free pages, of
-- 32 bits, is two higher, the state is that of the two calls of `free_page`, of the table and of the directory, with both
-- entries cleared, and `get_pte` finds no entry for any address of the same gigabyte. Its conditions are that both entries on the way to
-- the table are valid and that the page manager takes the two pages.
pub exit_range_lem :
    (f pgdir start end pd0 pt lb : ℕ) (s s1 s2 : Paging)
    → checked start end ≡ true
    → start < 2 ^ 32
    → end ≤ align start ptsize + ptsize
    → is_valid (s.tables pgdir (pdx1 (align start pdsize))) ≡ true
    → page_of (s.tables pgdir (pdx1 (align start pdsize))) s ≡ done pd0
    → is_valid (s.tables pd0 (pdx0 (align start ptsize))) ≡ true
    → page_of (s.tables pd0 (pdx0 (align start ptsize))) s ≡ done pt
    → is_empty_table 512 pt s ≡ true
    → free_page pt s ≡ done s1
    → free_page pd0 (set_entry pd0 (pdx0 (align start ptsize)) 0 s1) ≡ done s2
    → pdx1 lb ≡ pdx1 (align start pdsize)
    → (s' : Paging) × (exit_range (suc (suc f)) pgdir start end s ≡ done s')
      × (s'.pages.nr_free ≡ Pmm.u32 (s.pages.nr_free + 2))
      × (s' ≡ set_entry pgdir (pdx1 (align start pdsize)) 0 s2)
      × (get_pte false pgdir lb s' ≡ done (none, s'))
unfolding exit_range exit_loop exit_directory
exit_range_lem f pgdir start end pd0 pt lb s s1 s2 good small le v1 p1 v0 p0 empty gone goes same =
    let d1 : ℕ = align start pdsize in
    let d0 : ℕ = align start ptsize in
    let i : ℕ = pdx1 d1 in
    let inner =
      exit_tables-last f s (set_entry pd0 (pdx0 d0) 0 s1) pd0 d0 d1 end true
        (exit_table-empty s s1 pd0 (pdx0 d0) pt true v0 p0 empty gone)
        (within_table start end small le) in
    let round : exit_directory (suc f) pgdir d1 d0 end s ≡ done (set_entry pgdir i 0 s2) = rw v1 (
      ap
        (λ (m : Run ℕ).
          m >>= λ pd0. exit_tables (suc f) pd0 d0 d1 end true s >>= free_directory pgdir i pd0)
        p1
      ∙ ap (λ (m : Run (Bool × Paging)). m >>= free_directory pgdir i pd0) inner
      ∙ ap (λ (m : Run Paging). m >>= λ s'. done (set_entry pgdir i 0 s')) goes) in
    let next : ℕ = word (d1 + pdsize) in
    (
      set_entry pgdir i 0 s2,
      rw good (
          ap
            (λ (m : Run Paging). m >>= λ s'.
              (let rest = exit_loop (suc f) pgdir next next end s' in
                if goes_on next end then rest else done s'))
            round
          ∙ rw (stops next end (within_directory start end small le)) refl),
      (let first = free_page_count pt s s1 gone in
          let second = free_page_count pd0 (set_entry pd0 (pdx0 d0) 0 s1) s2 goes in
          omega (arith, first, second)),
      refl,
      get_pte-cleared pgdir lb i s2 same,
    )
