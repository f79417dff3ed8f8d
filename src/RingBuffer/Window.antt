-- ===== src/RingBuffer/Window.antt =====
-- The live slots of a circular buffer, as a list, and what a write does to them.
use native.Mathlib.Nat.{suc-mod, add-zero, add-suc, suc-add}
use kit4go.Common.{
  ℕ, zero, suc, ◌+◌, ◌-◌, ◌%◌, ◌<◌, ◌≡◌, refl, sym, ap, ap₂, ◌∙◌, ◌≢◌, List, [], ◌∷◌, ◌++◌, arith,
  length, set, get_or, get_or-set_ne,
}

module _ {ℓ} {A : Type ℓ} where
  module _ (d : A) (cap : ℕ) where
    -- `n` slots from position `t` on; a position counts past the end and is reduced at each read.
    abbrev pub window : List A → ℕ → ℕ → List A
    window buf t zero = []
    window buf t (suc n) = get_or buf (t % cap) d ∷ window buf (suc t) n

    pub length-window : (buf : List A) (t n : ℕ) → length (window buf t n) ≡ n
    length-window buf t zero = refl
    length-window buf t (suc n) = ap suc (length-window buf (suc t) n)

    -- Only the position's remainder matters.
    pub window-congr :
        (buf : List A) (s t n : ℕ) → s % cap ≡ t % cap → window buf s n ≡ window buf t n
    window-congr buf s t zero e = refl
    window-congr buf s t (suc n) e =
        ap₂ (λ i l. get_or buf i d ∷ l) e
          (window-congr buf (suc s) (suc t) n
            (suc-mod s cap ∙ ap (λ r. suc r % cap) e ∙ sym (suc-mod t cap)))

    pub window_snoc :
        (buf : List A) (t n : ℕ)
        → window buf t (suc n) ≡ window buf t n ++ (get_or buf ((t + n) % cap) d ∷ [])
    window_snoc buf t zero = rw add-zero
    window_snoc buf t (suc n) =
        ap (◌∷◌ (get_or buf (t % cap) d)) (rw (add-suc, ← suc-add) (window_snoc buf (suc t) n))

    -- A write to a slot outside the window does not show.
    pub window-set_outside :
        (buf : List A) (i : ℕ) (v : A) (t n : ℕ)
        → ((k : ℕ) → k < n → i ≢ (t + k) % cap)
        → window (set buf i v) t n ≡ window buf t n
    window-set_outside buf i v t zero h = refl
    window-set_outside buf i v t (suc n) h =
        ap₂ ◌∷◌ (get_or-set_ne buf v d (λ e. h 0 (omega arith) (rw add-zero e))) (
          window-set_outside buf i v (suc t) n
            (λ k lt e. h (suc k) (omega arith) (rw (add-suc, ← suc-add) e)))

    -- `window` matches on `suc`; the code counts down with `- 1`.
    pub window_of_ne_zero :
        (buf : List A) (t n : ℕ)
        → n ≢ 0
        → window buf t n ≡ get_or buf (t % cap) d ∷ window buf (suc t) (n - 1)
    window_of_ne_zero buf t zero h = absurd (h refl)
    window_of_ne_zero buf t (suc n) h = ap (λ k. window buf t (suc k)) (omega arith)
