-- ===== src/Bloom/Unions.antt =====
-- Unions of the bits of two filters in bloom/bloom.go.
use kit4go.Bloom.{test_bit, or_word, or_words}
use kit4go.Bloom.Members.{Words64}
use kit4go.Common.{
  ℕ, zero, suc, ◌/◌, ◌%◌, ◌≡◌, refl, sym, ap, ◌∙◌, Bool, true, false, List, [], ◌∷◌, arith, length,
  get_or,
}

or_word_left :
    (w o : List Bool) (l : ℕ) → get_or w l false ≡ true → get_or (or_word w o) l false ≡ true
unfolding or_word
or_word_left [] o l h = h
or_word_left (x ∷ w) [] l h = h
or_word_left (x ∷ w) (y ∷ o) zero h = ground (arith, h)
or_word_left (x ∷ w) (y ∷ o) (suc l) h = or_word_left w o l h

or_word_right :
    (w o : List Bool) (l : ℕ)
    → length w ≡ length o
    → get_or o l false ≡ true
    → get_or (or_word w o) l false ≡ true
unfolding or_word
or_word_right [] [] l e h = h
or_word_right [] (y ∷ o) l e h = absurd (omega (arith, e))
or_word_right (x ∷ w) [] l e h = absurd (omega (arith, e))
or_word_right (x ∷ w) (y ∷ o) zero e h = ground (arith, h)
or_word_right (x ∷ w) (y ∷ o) (suc l) e h = or_word_right w o l (omega (arith, e)) h

or_words_left_at :
    (bits others : List (List Bool)) (q l : ℕ)
    → get_or (get_or bits q []) l false ≡ true
    → get_or (get_or (or_words bits others) q []) l false ≡ true
unfolding or_words
or_words_left_at [] others q l h = h
or_words_left_at (w ∷ bits) [] q l h = h
or_words_left_at (w ∷ bits) (o ∷ others) zero l h = or_word_left w o l h
or_words_left_at (w ∷ bits) (o ∷ others) (suc q) l h = or_words_left_at bits others q l h

or_words_right_at :
    (bits others : List (List Bool)) (q l : ℕ)
    → length bits ≡ length others
    → Words64 bits
    → Words64 others
    → get_or (get_or others q []) l false ≡ true
    → get_or (get_or (or_words bits others) q []) l false ≡ true
unfolding or_words Words64
or_words_right_at [] [] q l e h k t = t
or_words_right_at [] (o ∷ others) q l e h k t = absurd (omega (arith, e))
or_words_right_at (w ∷ bits) [] q l e h k t = absurd (omega (arith, e))
or_words_right_at (w ∷ bits) (o ∷ others) zero l e h k t = or_word_right w o l (h.0 ∙ sym k.0) t
or_words_right_at (w ∷ bits) (o ∷ others) (suc q) l e h k t =
    or_words_right_at bits others q l (omega (arith, e)) h.1 k.1 t

pub or_words_left :
    (bits others : List (List Bool)) (j : ℕ)
    → test_bit j bits ≡ true
    → test_bit j (or_words bits others) ≡ true
unfolding test_bit
or_words_left bits others j h = or_words_left_at bits others (j / 64) (j % 64) h

pub or_words_right :
    (bits others : List (List Bool)) (j : ℕ)
    → length bits ≡ length others
    → Words64 bits
    → Words64 others
    → test_bit j others ≡ true
    → test_bit j (or_words bits others) ≡ true
unfolding test_bit
or_words_right bits others j e h k t = or_words_right_at bits others (j / 64) (j % 64) e h k t

length-or_word : (w o : List Bool) → length (or_word w o) ≡ length w
unfolding or_word
length-or_word [] o = refl
length-or_word (x ∷ w) [] = refl
length-or_word (x ∷ w) (y ∷ o) = ap suc (length-or_word w o)

pub length-or_words : (bits others : List (List Bool)) → length (or_words bits others) ≡ length bits
unfolding or_words
length-or_words [] others = refl
length-or_words (w ∷ bits) [] = refl
length-or_words (w ∷ bits) (o ∷ others) = ap suc (length-or_words bits others)

pub Words64-or_words :
    (bits others : List (List Bool)) → Words64 bits → Words64 (or_words bits others)
unfolding or_words Words64
Words64-or_words [] others h = tt
Words64-or_words (w ∷ bits) [] h = h
Words64-or_words (w ∷ bits) (o ∷ others) h =
    (length-or_word w o ∙ h.0, Words64-or_words bits others h.1)
