-- ===== src/Slab/Tests.antt =====
-- The slab properties on caches with one free object each.
use seng21213_os.Prelude.{
  ℕ, ◌+◌, ◌*◌, ◌≤◌, ◌<◌, ◌≡◌, refl, ◌≢◌, ◌⊎◌, true, false, List, [], ◌∷◌, arith, find_first,
  word_at, inl, inr, ltb, Bool-cases,
}
use seng21213_os.Slab.{
  SlabState, cache_count, cache_sizes, cache_index, take_object, kmalloc, in_page, kfree,
}
use seng21213_os.Slab.FreeList.{IsChain, All, IsDistinct}
use seng21213_os.Slab.Objects.{HasFree, Took, kmalloc_cases, kfree_cases}

abbrev page : ℕ → ℕ
page i = 0x10000 + i * 4096

abbrev one_each : SlabState
one_each = record {
  slabs = λ i. record {
    addr = page i;
    object_size = cache_sizes i;
    free_count = 1;
    free_list = page i;
  };
  memory = λ a. 0;
  slab_initialized = true;
}

abbrev free : ℕ → List ℕ
free i = page i ∷ []

one_each-HasFree : (i : ℕ) → i < cache_count → HasFree one_each i (free i)
unfolding word_at
one_each-HasFree i l = record {
  chain = IsChain.next (page i) [] (λ e. omega (arith, e)) (omega (arith, l)) IsChain.done;
  distinct = IsDistinct.more (page i) [] All.empty IsDistinct.empty;
  counted = refl;
}

kmalloc_100 : (kmalloc one_each 100).1 ≡ 0x12000
unfolding kmalloc cache_index take_object find_first word_at
kmalloc_100 = refl

abbrev wanted : ℕ
wanted = 100

abbrev object : ℕ
object = 0x11040

kmalloc_cases_example :
    (((true ≡ false) ⊎ (wanted ≡ 0) ⊎ (256 < wanted)) × (kmalloc one_each wanted ≡ (one_each, 0)))
    ⊎ ((true ≡ true)
        × (0 < wanted)
        × (i : ℕ) × (i < cache_count)
        × (wanted ≤ cache_sizes i)
        × ((j : ℕ) → j < i → cache_sizes j < wanted)
        × Took one_each i (free i) (kmalloc one_each wanted))
kmalloc_cases_example = kmalloc_cases one_each wanted free one_each-HasFree

page_apart : (i : ℕ) → (object + 4 ≤ page i) ⊎ (page i + 4 ≤ object)
page_apart i = elim (Bool-cases (ltb i 2)) [
  | inl t ↦ inr (ground (arith, t))
  | inr f ↦ inl (ground (arith, f))
]

kfree_cases_example :
    (((true ≡ false)
        ⊎ (object ≡ 0)
        ⊎ ((i : ℕ) → i < cache_count → in_page one_each object i ≡ false))
      × (kfree one_each object ≡ one_each))
    ⊎ ((true ≡ true)
        × (object ≢ 0)
        × (i : ℕ) × (i < cache_count)
        × (in_page one_each object i ≡ true)
        × HasFree (kfree one_each object) i (object ∷ free i)
        × ((j : ℕ) → j < cache_count → i ≢ j → HasFree (kfree one_each object) j (free j)))
kfree_cases_example =
    kfree_cases one_each object free one_each-HasFree
      (λ i l. (All.more (page i) [] (page_apart i) All.empty, omega arith)) (omega arith)
