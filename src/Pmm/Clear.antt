-- ===== src/Pmm/Clear.antt =====
-- The loops of default_pmm.c over the pages of a block.
use oshub.Prelude.{
  ℕ, zero, suc, ◌+◌, ◌≤◌, ◌<◌, ◌≡◌, refl, Bool, true, false, ◌&&◌, if◌then◌else◌, update, done,
  arith, leb, ltb,
}
use oshub.Pmm.{Pages, clear_pages, reset_pages}

-- Whether `q` is one of the `n` pages from `p`.
abbrev pub within : ℕ → ℕ → ℕ → Bool
within p n q = leb p q && ltb q (p + n)

-- The two flag bits and `ref` of these pages are 0 now, and nothing else has changed.
pub record Cleared (n p : ℕ) (s t : Pages) : Type 0 where
  pub links : t.links ≡ s.links
  pub nr_free : t.nr_free ≡ s.nr_free
  pub property : t.property ≡ s.property
  pub has_property : (q : ℕ) → t.has_property q ≡ (if within p n q then false else s.has_property q)
  pub reserved : (q : ℕ) → t.reserved q ≡ (if within p n q then false else s.reserved q)
  pub ref : (q : ℕ) → t.ref q ≡ (if within p n q then 0 else s.ref q)

-- `default_free_pages` accepts pages that are neither reserved nor the head of a free block.
pub clear_pages-Cleared :
    (n p : ℕ) (s : Pages)
    → ((q : ℕ) → p ≤ q → q < p + n → (s.reserved q ≡ false) × (s.has_property q ≡ false))
    → (t : Pages) × (clear_pages n p s ≡ done t) × Cleared n p s t
unfolding clear_pages
clear_pages-Cleared zero p s h = (
  s,
  refl,
  record {
    links = refl;
    nr_free = refl;
    property = refl;
    has_property = λ q. ground arith;
    reserved = λ q. ground arith;
    ref = λ q. ground arith;
  },
)
clear_pages-Cleared (suc n) p s h =
    let (t, run, c) = clear_pages-Cleared n (p + 1) step later in
    (
      t,
      rw ((h p (omega arith) (omega arith)).0, (h p (omega arith) (omega arith)).1) run,
      record {
        links = c.links;
        nr_free = c.nr_free;
        property = c.property;
        has_property = λ q. ground (arith, c.has_property q);
        reserved = λ q. ground (arith, c.reserved q);
        ref = λ q. ground (arith, c.ref q);
      },
    )
  where
    step : Pages
    step = record s {
      has_property = update s.has_property p false;
      reserved = update s.reserved p false;
      ref = update s.ref p 0;
    }

    later :
        (q : ℕ)
        → p + 1 ≤ q
        → q < p + 1 + n
        → (step.reserved q ≡ false) × (step.has_property q ≡ false)
    later q lo hi = ground (arith, h q)

-- `default_init_memmap` accepts reserved pages; their sizes are 0 then too.
pub reset_pages-done :
    (n p : ℕ) (s : Pages)
    → ((q : ℕ) → p ≤ q → q < p + n → s.reserved q ≡ true)
    → (t : Pages) × (reset_pages n p s ≡ done t)
      × (t.links ≡ s.links)
      × (t.nr_free ≡ s.nr_free)
      × ((q : ℕ) → t.has_property q ≡ (if within p n q then false else s.has_property q))
      × ((q : ℕ) → t.reserved q ≡ (if within p n q then false else s.reserved q))
unfolding reset_pages
reset_pages-done zero p s h = (s, refl, refl, refl, λ q. ground arith, λ q. ground arith)
reset_pages-done (suc n) p s h =
    let (t, run, l, f, has, res) = reset_pages-done n (p + 1) step later in
    (
      t,
      rw (h p (omega arith) (omega arith)) run,
      l,
      f,
      λ q. ground (arith, has q),
      λ q. ground (arith, res q),
    )
  where
    step : Pages
    step = record s {
      property = update s.property p 0;
      has_property = update s.has_property p false;
      reserved = update s.reserved p false;
      ref = update s.ref p 0;
    }

    later : (q : ℕ) → p + 1 ≤ q → q < p + 1 + n → step.reserved q ≡ true
    later q lo hi = ground (arith, h q)
