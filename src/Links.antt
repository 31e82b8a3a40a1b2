-- ===== src/Links.antt =====
-- lab8/libs/list.h: circular doubly linked lists through `list_entry` nodes. The store gives the
-- two fields of every node; a node is named by a number, and a function that writes returns the
-- new store.
pub mod Chain
pub mod Ring
pub mod Other
use oshub.Prelude.{ℕ, Bool, ◌==◌, update}

-- `struct list_entry` of every node
pub record Links : Type 0 where
  pub prev : ℕ → ℕ
  pub next : ℕ → ℕ

-- `__list_add`
unfoldable pub add_between : ℕ → ℕ → ℕ → Links → Links
add_between elm p n s = record {
  prev = update (update s.prev n elm) elm p;
  next = update (update s.next p elm) elm n;
}

-- `__list_del`
unfoldable pub del_between : ℕ → ℕ → Links → Links
del_between p n s = record { prev = update s.prev n p; next = update s.next p n }

unfoldable pub init : ℕ → Links → Links
init elm s = record { prev = update s.prev elm elm; next = update s.next elm elm }

-- `list_add_after`, and `list_add`, which calls it
unfoldable pub add_after : ℕ → ℕ → Links → Links
unfolding add_between
add_after listelm elm s = add_between elm listelm (s.next listelm) s

unfoldable pub add : ℕ → ℕ → Links → Links
unfolding add_after
add listelm elm s = add_after listelm elm s

unfoldable pub add_before : ℕ → ℕ → Links → Links
unfolding add_between
add_before listelm elm s = add_between elm (s.prev listelm) listelm s

unfoldable pub del : ℕ → Links → Links
unfolding del_between
del listelm s = del_between (s.prev listelm) (s.next listelm) s

unfoldable pub del_init : ℕ → Links → Links
unfolding del init
del_init listelm s = init listelm (del listelm s)

unfoldable pub is_empty : ℕ → Links → Bool
is_empty list s = s.next list == list
