-- ===== src/Slab/FreeList.antt =====
-- The free list of a cache as a list of addresses.
use seng21213_os.Prelude.{
  ℕ, suc, ◌+◌, ◌^◌, ◌≤◌, ◌<◌, sym, ◌≢◌, ◌⊎◌, arith, List, [], ◌∷◌, subst, word_at, put_word,
  word_at-put_word, word_at-put_word_apart,
}

-- The list `l` of addresses is what one finds from `head` on by following the pointers in memory.
pub data IsChain (memory : ℕ → ℕ) : ℕ → List ℕ → Type 0 where
  done : IsChain memory 0 []
  next :
      (a : ℕ) (l : List ℕ)
      → a ≢ 0
      → a < 2 ^ 32
      → IsChain memory (word_at memory a) l
      → IsChain memory a (a ∷ l)

-- All elements have the property.
pub data All (P : ℕ → Type 0) : List ℕ → Type 0 where
  empty : All P []
  more : (a : ℕ) (l : List ℕ) → P a → All P l → All P (a ∷ l)

-- The pointer at one address and the pointer at the other have no byte in common.
abbrev pub Apart : ℕ → ℕ → Type 0
Apart p a = (p + 4 ≤ a) ⊎ (a + 4 ≤ p)

abbrev pub Without : ℕ → List ℕ → Type 0
Without p l = All (Apart p) l

pub data IsDistinct : List ℕ → Type 0 where
  empty : IsDistinct []
  more : (a : ℕ) (l : List ℕ) → Without a l → IsDistinct l → IsDistinct (a ∷ l)

pub IsDistinct-head : {a : ℕ} {l : List ℕ} → IsDistinct (a ∷ l) → Without a l
IsDistinct-head (IsDistinct.more a l w d) = w

pub IsDistinct-tail : {a : ℕ} {l : List ℕ} → IsDistinct (a ∷ l) → IsDistinct l
IsDistinct-tail (IsDistinct.more a l w d) = d

abbrev pub length : List ℕ → ℕ
length [] = 0
length (a ∷ l) = suc (length l)

pub Without-head : {p a : ℕ} {l : List ℕ} → Without p (a ∷ l) → Apart p a
Without-head (All.more a l ne w) = ne

pub Without-tail : {p a : ℕ} {l : List ℕ} → Without p (a ∷ l) → Without p l
Without-tail (All.more a l ne w) = w

pub head_lt : {memory : ℕ → ℕ} {head : ℕ} {l : List ℕ} → IsChain memory head l → head < 2 ^ 32
head_lt IsChain.done = omega arith
head_lt (IsChain.next a l nz lt c) = lt

-- A pointer that is stored where it has no byte in common with those of the list leaves the list.
pub put_word-IsChain :
    (memory : ℕ → ℕ) (p v head : ℕ) (l : List ℕ)
    → Without p l
    → IsChain memory head l
    → IsChain (put_word memory p v) head l
put_word-IsChain memory p v head l w IsChain.done = IsChain.done
put_word-IsChain memory p v head l w (IsChain.next a r nz lt c) = IsChain.next a r nz lt (
    subst (λ h. IsChain (put_word memory p v) h r)
      (sym (word_at-put_word_apart memory p a v (Without-head w)))
      (put_word-IsChain memory p v (word_at memory a) r (Without-tail w) c))

-- A new address in front.
pub push-IsChain :
    (memory : ℕ → ℕ) (p head : ℕ) (l : List ℕ)
    → p ≢ 0
    → p < 2 ^ 32
    → Without p l
    → IsChain memory head l
    → IsChain (put_word memory p head) p (p ∷ l)
push-IsChain memory p head l nz lt w c = IsChain.next p l nz lt (
    subst (λ h. IsChain (put_word memory p head) h l)
      (sym (word_at-put_word memory p head (head_lt c)))
      (put_word-IsChain memory p head head l w c))
