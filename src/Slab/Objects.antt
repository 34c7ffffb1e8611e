-- ===== src/Slab/Objects.antt =====
-- Allocating and freeing an object of a cache of kernel/slab.c.
use seng21213_os.Prelude.{
  ℕ, suc, ◌+◌, ◌-◌, ◌^◌, ◌≤◌, ◌<◌, ◌≡◌, refl, sym, ◌∙◌, ap, ◌≢◌, ◌⊎◌, inl, inr, Bool, true, false,
  not, ◌||◌, none, List, [], ◌∷◌, arith, leb, ◌==◌, Bool-cases, Option-cases, update_self,
  update_ne, subst, find_first, Found, find_first-Found, find_first-none, word_at, put_word,
}
use seng21213_os.Machine.{u32}
use seng21213_os.Slab.{
  Slab, SlabState, set_slab, cache_count, cache_sizes, cache_index, push_object, take_object,
  kmalloc, in_page, give_object, kfree,
}
use seng21213_os.Slab.FreeList.{
  IsChain, Without, IsDistinct, IsDistinct-head, IsDistinct-tail, length, put_word-IsChain,
  push-IsChain,
}

-- The free objects of the cache are `l`: different ones, as many as it counts.
pub record HasFree (s : SlabState) (i : ℕ) (l : List ℕ) : Type 0 where
  pub chain : IsChain s.memory (s.slabs i).free_list l
  pub distinct : IsDistinct l
  pub counted : (s.slabs i).free_count ≡ length l

-- What taking an object of a cache with the free objects `l` does.
pub data Took (s : SlabState) (i : ℕ) : List ℕ → SlabState × ℕ → Type 0 where
  exhausted : Took s i [] (s, 0)
  took :
      (a : ℕ) (l : List ℕ) (t : SlabState)
      → a ≢ 0
      → Without a l
      → HasFree t i l
      → ((j : ℕ) → i ≢ j → t.slabs j ≡ s.slabs j)
      → t.memory ≡ s.memory
      → Took s i (a ∷ l) (t, a)

take_object-Took :
    (s : SlabState) (i : ℕ) (l : List ℕ) → HasFree s i l → Took s i l (take_object s i)
unfolding take_object
take_object-Took s i l h = go l (s.slabs i).free_list refl h.chain h.distinct h.counted
  where
    go :
        (l : List ℕ) (head : ℕ)
        → (s.slabs i).free_list ≡ head
        → IsChain s.memory head l
        → IsDistinct l
        → (s.slabs i).free_count ≡ length l
        → Took s i l (take_object s i)
    go l head e IsChain.done d c =
        let t : (s.slabs i).free_list == 0 ≡ true = ground arith in
        rw (take_object, t) Took.exhausted
    go l head e (IsChain.next a r nz lt m) d c =
        let fl = (s.slabs i).free_list in
        let f : fl == 0 ≡ false = ground (arith, e, nz) in
        let y : Slab = record (s.slabs i) {
          free_list = word_at s.memory fl;
          free_count = (s.slabs i).free_count - 1;
        } in
        let t = set_slab s i y in
        let at_i : t.slabs i ≡ y = update_self s.slabs i y in
        let free : HasFree t i r = record {
          chain =
              subst (λ x. IsChain s.memory x r)
                (ap (word_at s.memory) (sym e) ∙ ap (λ z. z.free_list) (sym at_i)) m;
          distinct = IsDistinct-tail d;
          counted = omega (arith, c, ap (λ z. z.free_count) at_i);
        } in
        rw (take_object, f)
          (subst (λ x. Took s i (x ∷ r) (t, fl)) e
            (Took.took fl r t (λ g. nz (sym e ∙ g))
              (subst (λ x. Without x r) (sym e) (IsDistinct-head d)) free
              (λ j ne. update_ne s.slabs i j y ne) refl))

too_large : (size : ℕ) → cache_index size ≡ none → 256 < size
unfolding cache_index
too_large size e = ground (
  arith,
  find_first-none (λ i. leb size (cache_sizes i)) cache_count 0 e 3 (omega arith) (omega arith),
)

ready :
    (s : SlabState) (b : Bool) → (not s.slab_initialized || b) ≡ false → s.slab_initialized ≡ true
ready s b h = elim (Bool-cases s.slab_initialized) [ inl t ↦ t | inr f ↦ absurd (cc (rw f at h)) ]

positive : (s : SlabState) (n : ℕ) → (not s.slab_initialized || n == 0) ≡ false → 0 < n
positive s n h = elim (Bool-cases (n == 0)) [
  | inl t ↦ absurd (cc (rw (t, ready s (n == 0) h) at h))
  | inr f ↦ ground (arith, f)
]

-- `kmalloc` gives NULL and changes nothing before `slab_init`, for size 0, and for a size over 256.
-- Otherwise it uses the cache of the smallest objects that are large enough: NULL if it has no free
-- object, else its first free object, which is not free afterwards, while the others still are.
pub kmalloc_cases :
    (s : SlabState) (size : ℕ) (free : ℕ → List ℕ)
    → ((i : ℕ) → i < cache_count → HasFree s i (free i))
    → (((s.slab_initialized ≡ false) ⊎ (size ≡ 0) ⊎ (256 < size)) × (kmalloc s size ≡ (s, 0)))
      ⊎ ((s.slab_initialized ≡ true)
          × (0 < size)
          × (i : ℕ) × (i < cache_count)
          × (size ≤ cache_sizes i)
          × ((j : ℕ) → j < i → cache_sizes j < size)
          × Took s i (free i) (kmalloc s size))
unfolding kmalloc cache_index
kmalloc_cases s size free h = elim (Bool-cases (not s.slab_initialized || size == 0)) [
  | inl t ↦ inl (
    elim (Bool-cases s.slab_initialized) [ inr f ↦ inl f | inl y ↦ inr (inl (ground arith)) ],
    rw (kmalloc, t),
  )
  | inr z ↦ elim (Option-cases (cache_index size)) [
    | inl e ↦ inl (inr (inr (too_large size e)), rw (kmalloc, z, e))
    | inr (i, e) ↦
        let g : Found (λ i. leb size (cache_sizes i)) cache_count 0 i =
          find_first-Found _ _ _ _ e in
        inr (
          ready s (size == 0) z,
          positive s size z,
          i,
          omega (arith, g.below),
          ground (arith, g.passes),
          λ j l. ground (arith, g.first j (omega arith) l),
          rw (kmalloc, z, e) (take_object-Took s i (free i) (h i (omega (arith, g.below)))),
        )
  ]
]

-- The object `p` goes in front of the free objects of the cache in whose page it is.
give_object-HasFree :
    (s : SlabState) (i p : ℕ) (l : List ℕ)
    → HasFree s i l
    → p ≢ 0
    → p < 2 ^ 32
    → Without p l
    → suc (length l) < 2 ^ 32
    → HasFree (give_object s i p) i (p ∷ l)
unfolding give_object push_object
give_object-HasFree s i p l h nz lt w small =
    let x = s.slabs i in
    let y : Slab = record x { free_list = p } in
    let pushed = push_object s i p in
    let at_i : pushed.slabs i ≡ y = update_self s.slabs i y in
    let z : Slab = record (pushed.slabs i) { free_count = u32 ((pushed.slabs i).free_count + 1) } in
    let last : (give_object s i p).slabs i ≡ z = update_self pushed.slabs i z in
    record {
      chain =
          subst (λ o. IsChain (put_word s.memory p x.free_list) o (p ∷ l))
            (sym (ap (λ o. o.free_list) last ∙ ap (λ o. o.free_list) at_i))
            (push-IsChain s.memory p x.free_list l nz lt w h.chain);
      distinct = IsDistinct.more p l w h.distinct;
      counted =
          omega (arith, ap (λ o. o.free_count) last, ap (λ o. o.free_count) at_i, h.counted, small);
    }

other_cache-HasFree :
    (s : SlabState) (i j p : ℕ) (l : List ℕ)
    → i ≢ j
    → HasFree s j l
    → Without p l
    → HasFree (give_object s i p) j l
unfolding give_object push_object
other_cache-HasFree s i j p l ne h w =
    let pushed = push_object s i p in
    let same : (give_object s i p).slabs j ≡ s.slabs j =
      update_ne pushed.slabs i j _ ne ∙ update_ne s.slabs i j _ ne in
    record {
      chain =
          subst (λ o. IsChain (put_word s.memory p (s.slabs i).free_list) o l)
            (sym (ap (λ o. o.free_list) same))
            (put_word-IsChain s.memory p (s.slabs i).free_list (s.slabs j).free_list l w h.chain);
      distinct = h.distinct;
      counted = ap (λ o. o.free_count) same ∙ h.counted;
    }

-- With 32-bit addresses and counts that do not wrap, `kfree` of an object whose first four bytes,
-- where its pointer goes, are not those of a free one makes it the first free object of the cache
-- in whose page it is, and the other free objects stay free, in this cache and the others. It does
-- nothing before `slab_init` and to NULL or an address outside the pages.
pub kfree_cases :
    (s : SlabState) (p : ℕ) (free : ℕ → List ℕ)
    → ((i : ℕ) → i < cache_count → HasFree s i (free i))
    → ((i : ℕ) → i < cache_count → Without p (free i) × (suc (length (free i)) < 2 ^ 32))
    → p < 2 ^ 32
    → (((s.slab_initialized ≡ false)
          ⊎ (p ≡ 0)
          ⊎ ((i : ℕ) → i < cache_count → in_page s p i ≡ false))
        × (kfree s p ≡ s))
      ⊎ ((s.slab_initialized ≡ true)
          × (p ≢ 0)
          × (i : ℕ) × (i < cache_count)
          × (in_page s p i ≡ true)
          × HasFree (kfree s p) i (p ∷ free i)
          × ((j : ℕ) → j < cache_count → i ≢ j → HasFree (kfree s p) j (free j)))
unfolding kfree
kfree_cases s p free h w lt = elim (Bool-cases (not s.slab_initialized || p == 0)) [
  | inl t ↦ inl (
    elim (Bool-cases s.slab_initialized) [ inr f ↦ inl f | inl y ↦ inr (inl (ground arith)) ],
    rw (kfree, t),
  )
  | inr z ↦ elim (Option-cases (find_first (in_page s p) cache_count 0)) [
    | inl e ↦ inl (
      inr (
          inr (λ i l. find_first-none (in_page s p) cache_count 0 e i (omega arith) (omega arith))),
      rw (kfree, z, e),
    )
    | inr (i, e) ↦
        let g : Found (in_page s p) cache_count 0 i = find_first-Found _ _ _ _ e in
        let l : i < cache_count = omega (arith, g.below) in
        let nz : p ≢ 0 = λ n. ground (arith, n) in
        inr (
          ready s (p == 0) z,
          nz,
          i,
          l,
          g.passes,
          rw (kfree, z, e) (give_object-HasFree s i p (free i) (h i l) nz lt (w i l).0 (w i l).1),
          λ j b ne. rw (kfree, z, e) (other_cache-HasFree s i j p (free j) ne (h j b) (w j b).0),
        )
  ]
]
