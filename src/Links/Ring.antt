-- ===== src/Links/Ring.antt =====
-- What a list of list.h stands for: the sequence of its nodes.
use mathlib.Core.Path.{subst}
use mathlib.Core.List.{append_assoc, append-nil}
use oshub.Prelude.{
  All-left, All-right, ℕ, ◌≡◌, ◌≢◌, sym, true, false, ==-ne, List, [], ◌∷◌, ◌++◌, arith, last_or,
  head_or, is_nil, ◌∉◌, Distinct,
}
use oshub.Links.{
  Links, add_between, del_between, init, add, add_after, add_before, del, del_init, is_empty,
}
use oshub.Links.Chain.{
  keep_one, not-mem-last, Chain, frame, insert-Chain, delete-Chain, neighbours, gap, ∉-insert,
  ∉-delete, Distinct-insert, Distinct-delete, not-mem_of_Distinct,
}

-- The list with the head node `h` holds the nodes `xs`, in order.
pub record Ring (s : Links) (h : ℕ) (xs : List ℕ) : Type 0 where
  pub chain : Chain s h xs h
  pub distinct : Distinct (h ∷ xs)

out_of : {s : Links} {h : ℕ} (xs ys : List ℕ) (e : ℕ) → Ring s h (xs ++ e ∷ ys) → e ∉ (h ∷ xs ++ ys)
out_of {h} xs ys e r =
    (λ p. (∉-delete h e xs ys r.distinct.0).0 (sym p), not-mem_of_Distinct e xs ys r.distinct.1)

-- `list_init` makes the empty list.
pub init-Ring : (h : ℕ) (s : Links) → Ring (init h s) h []
unfolding init
init-Ring h s = record { chain = ground arith; distinct = (tt, tt) }

module _ {s : Links} {h : ℕ} (xs ys : List ℕ) where
  add_between-Ring :
      (e : ℕ)
      → Ring s h (xs ++ ys)
      → e ∉ (h ∷ xs ++ ys)
      → Ring (add_between e (last_or h xs) (head_or ys h) s) h (xs ++ e ∷ ys)
  add_between-Ring e r new = record {
    chain = insert-Chain s e h xs ys h new new.0 r.distinct r.distinct.0 r.chain;
    distinct = (
      ∉-insert h e xs ys (λ p. new.0 (sym p)) r.distinct.0,
      Distinct-insert e xs ys new.1 r.distinct.1,
    );
  }

  -- `list_add` behind a node of the list, or behind its head.
  pub add-Ring :
      (e : ℕ)
      → Ring s h (xs ++ ys)
      → e ∉ (h ∷ xs ++ ys)
      → Ring (add (last_or h xs) e s) h (xs ++ e ∷ ys)
  unfolding add add_after
  add-Ring e r new = rw (gap s h xs ys h r.chain).0 (add_between-Ring e r new)

  -- `list_add_before` a node of the list, or before its head, puts a new node there; the others
  -- keep their order.
  pub add_before-Ring :
      (e : ℕ)
      → Ring s h (xs ++ ys)
      → e ∉ (h ∷ xs ++ ys)
      → Ring (add_before (head_or ys h) e s) h (xs ++ e ∷ ys)
  unfolding add_before
  add_before-Ring e r new = rw (gap s h xs ys h r.chain).1 (add_between-Ring e r new)

  -- `list_del` takes exactly its node out.
  pub del-Ring : (e : ℕ) → Ring s h (xs ++ e ∷ ys) → Ring (del e s) h (xs ++ ys)
  unfolding del
  del-Ring e r =
      let beside = neighbours s e h xs ys h r.chain in
      rw (beside.0, beside.1)
        (record {
          chain = delete-Chain s e h xs ys h r.distinct r.distinct.0 r.chain;
          distinct = ((∉-delete h e xs ys r.distinct.0).1, Distinct-delete e xs ys r.distinct.1);
        })

  -- `list_prev` and `list_next` of a node of the list.
  pub prev-Ring : (e : ℕ) → Ring s h (xs ++ e ∷ ys) → s.prev e ≡ last_or h xs
  prev-Ring e r = (neighbours s e h xs ys h r.chain).0

  pub next-Ring : (e : ℕ) → Ring s h (xs ++ e ∷ ys) → s.next e ≡ head_or ys h
  next-Ring e r = (neighbours s e h xs ys h r.chain).1

-- `list_prev` of the head is the last node.
pub prev_head : {s : Links} {h : ℕ} (xs : List ℕ) → Ring s h xs → s.prev h ≡ last_or h xs
prev_head {s} {h} xs r =
    (gap s h xs [] h (subst (λ l. Chain s h l h) (sym (append-nil xs)) r.chain)).1

-- `list_empty` says whether the list has no node.
pub is_empty-Ring : {s : Links} {h : ℕ} (xs : List ℕ) → Ring s h xs → is_empty h s ≡ is_nil xs
unfolding is_empty
is_empty-Ring [] r = ground arith
is_empty-Ring (x ∷ xs) r = ground arith

-- `list_del_init` takes exactly its node out of the list, and `list_empty` holds of the node then.
pub del_init-Ring :
    {s : Links} {h : ℕ} (xs ys : List ℕ) (e : ℕ)
    → Ring s h (xs ++ e ∷ ys)
    → Ring (del_init e s) h (xs ++ ys) × (is_empty e (del_init e s) ≡ true)
unfolding del_init init is_empty
del_init-Ring {s} {h} xs ys e r =
    let cut = del-Ring xs ys e r in
    let out : e ∉ (h ∷ xs ++ ys) = out_of xs ys e r in
    (
      record {
        chain =
            frame (del e s) _ h (xs ++ ys) h (keep_one (del e s).next e e (h ∷ xs ++ ys) out)
              (keep_one (del e s).prev e e (xs ++ ys) out.1) (ground arith) cut.chain;
        distinct = cut.distinct;
      },
      ground arith,
    )

-- `list_prev` of the second of two neighbours is the first.
pub prev_second :
    {s : Links} {h : ℕ} (xs ys : List ℕ) (p e : ℕ) → Ring s h (xs ++ p ∷ e ∷ ys) → s.prev e ≡ p
prev_second {s} {h} xs ys p e r = walk h xs r.chain
  where
    walk : (a : ℕ) (zs : List ℕ) → Chain s a (zs ++ p ∷ e ∷ ys) h → s.prev e ≡ p
    walk a [] c = c.1.0.1
    walk a (z ∷ zs) c = walk z zs c.1

-- `list_del` of the second of two neighbours.
pub del_second :
    {s : Links} {h : ℕ} (xs ys : List ℕ) (p e : ℕ)
    → Ring s h (xs ++ p ∷ e ∷ ys)
    → Ring (del e s) h (xs ++ p ∷ ys)
del_second {s} {h} xs ys p e r =
    subst (λ l. Ring (del e s) h l) (append_assoc xs (p ∷ []) ys)
      (del-Ring (xs ++ p ∷ []) ys e
        (subst (λ l. Ring s h l) (sym (append_assoc xs (p ∷ []) (e ∷ ys))) r))

-- A node of the list is linked to another one.
pub is_empty-member :
    {s : Links} {h : ℕ} (xs ys : List ℕ) (e : ℕ) → Ring s h (xs ++ e ∷ ys) → is_empty e s ≡ false
unfolding is_empty
is_empty-member {s} {h} xs ys e r =
    rw (next-Ring xs ys e r) (==-ne (λ p. other ys (out_of xs ys e r) (sym p)))
  where
    other : (ys : List ℕ) → e ∉ (h ∷ xs ++ ys) → e ≢ head_or ys h
    other [] n = n.0
    other (y ∷ ys) n = (All-right _ xs (y ∷ ys) n.1).0

-- A node that the list does not hold stays linked to itself, or not, as it was.
pub is_empty-add_before :
    {s : Links} {h : ℕ} (xs : List ℕ) (e q : ℕ)
    → Ring s h xs
    → q ≢ e
    → q ≢ h
    → q ∉ xs
    → is_empty q (add_before h e s) ≡ is_empty q s
unfolding is_empty add_before add_between
is_empty-add_before {s} {h} xs e q r ne nh out =
    let last : s.prev h ≡ last_or h xs = prev_head xs r in
    ground (arith, not-mem-last q h xs nh out)

pub is_empty-del_init :
    {s : Links} {h : ℕ} (xs ys : List ℕ) (e q : ℕ)
    → Ring s h (xs ++ e ∷ ys)
    → q ≢ e
    → q ≢ h
    → q ∉ (xs ++ e ∷ ys)
    → is_empty q (del_init e s) ≡ is_empty q s
unfolding is_empty del_init del del_between init
is_empty-del_init {s} {h} xs ys e q r ne nh out =
    let before = prev-Ring xs ys e r in
    ground (arith, not-mem-last q h xs nh (All-left _ xs (e ∷ ys) out))

-- A node that the list does not hold can be initialised.
pub init_other-Ring :
    {s : Links} {h : ℕ} (xs : List ℕ) (e : ℕ)
    → Ring s h xs
    → e ∉ (h ∷ xs)
    → Ring (init e s) h xs × (is_empty e (init e s) ≡ true)
unfolding init is_empty
init_other-Ring {s} {h} xs e r out = (
  record {
    chain =
        frame s _ h xs h (keep_one s.next e e (h ∷ xs) out) (keep_one s.prev e e xs out.1)
          (ground arith) r.chain;
    distinct = r.distinct;
  },
  ground arith,
)
