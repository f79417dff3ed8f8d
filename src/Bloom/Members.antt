-- ===== src/Bloom/Members.antt =====
-- bloom/bloom.go has no false negatives.
use native.Mathlib.Nat.{mod-lt, div-lt_iff_lt-mul}
use kit4go.Bloom.{set_bit, test_bit, set_all, test_all, indices_from}
use kit4go.Common.Words.{add64, mul64}
use kit4go.Common.{
  ℕ, zero, suc, ◌*◌, ◌/◌, ◌%◌, ◌≤◌, ◌<◌, ◌≡◌, refl, ap, ◌∙◌, inl, inr, Bool, true, false, List, [],
  ◌∷◌, map, arith, Bool-cases, length, set, length-set, get_or, replicate, length-replicate,
  get_or-set_self,
}

true_kept :
    (w : List Bool) (k l : ℕ) → get_or w l false ≡ true → get_or (set w k true) l false ≡ true
true_kept [] k l h = h
true_kept (b ∷ w) zero zero h = refl
true_kept (b ∷ w) zero (suc l) h = h
true_kept (b ∷ w) (suc k) zero h = h
true_kept (b ∷ w) (suc k) (suc l) h = true_kept w k l h

set_word_keeps :
    (bits : List (List Bool)) (q r p l : ℕ)
    → get_or (get_or bits p []) l false ≡ true
    → get_or (get_or (set bits q (set (get_or bits q []) r true)) p []) l false ≡ true
set_word_keeps [] q r p l h = h
set_word_keeps (w ∷ bits) zero r zero l h = true_kept w r l h
set_word_keeps (w ∷ bits) zero r (suc p) l h = h
set_word_keeps (w ∷ bits) (suc q) r zero l h = h
set_word_keeps (w ∷ bits) (suc q) r (suc p) l h = set_word_keeps bits q r p l h

set_bit_keeps :
    (i j : ℕ) (bits : List (List Bool))
    → test_bit j bits ≡ true
    → test_bit j (set_bit i bits) ≡ true
unfolding test_bit set_bit
set_bit_keeps i j bits h = set_word_keeps bits (i / 64) (i % 64) (j / 64) (j % 64) h

-- every word has 64 bits
unfoldable pub Words64 : List (List Bool) → Type 0
Words64 [] = Unit
Words64 (w ∷ bits) = (length w ≡ 64) × Words64 bits

Words64-get :
    (bits : List (List Bool)) (q : ℕ)
    → Words64 bits
    → q < length bits
    → length (get_or bits q []) ≡ 64
unfolding Words64
Words64-get [] q h lt = absurd (omega (arith, lt))
Words64-get (w ∷ bits) zero h lt = h.0
Words64-get (w ∷ bits) (suc q) h lt = Words64-get bits q h.1 (omega (arith, lt))

Words64-set :
    (bits : List (List Bool)) (q : ℕ) (w : List Bool)
    → Words64 bits
    → length w ≡ 64
    → Words64 (set bits q w)
unfolding Words64
Words64-set [] q w h e = tt
Words64-set (v ∷ bits) zero w h e = (e, h.1)
Words64-set (v ∷ bits) (suc q) w h e = (h.0, Words64-set bits q w h.1 e)

-- an array that has a place for every index below `m`
abbrev pub Holds : ℕ → List (List Bool) → Type 0
Holds m bits = Words64 bits × (m ≤ length bits * 64)

word_in : (m i : ℕ) (bits : List (List Bool)) → Holds m bits → i < m → i / 64 < length bits
word_in m i bits h lt = (div-lt_iff_lt-mul (omega arith)).1 (omega (arith, lt, h.1))

set_bit-Holds :
    (m i : ℕ) (bits : List (List Bool)) → i < m → Holds m bits → Holds m (set_bit i bits)
unfolding set_bit
set_bit-Holds m i bits lt h =
    let inside = word_in m i bits h lt in
    let word = get_or bits (i / 64) [] in
    (
      Words64-set bits (i / 64) (set word (i % 64) true) h.0
          (length-set word (i % 64) true ∙ Words64-get bits (i / 64) h.0 inside),
      omega (arith, h.1, length-set bits (i / 64) (set word (i % 64) true)),
    )

set_bit_self :
    (m i : ℕ) (bits : List (List Bool)) → i < m → Holds m bits → test_bit i (set_bit i bits) ≡ true
unfolding test_bit set_bit
set_bit_self m i bits lt h =
    let inside = word_in m i bits h lt in
    let word = get_or bits (i / 64) [] in
    let place : i % 64 < length word = omega (arith, Words64-get bits (i / 64) h.0 inside) in
    ap (λ (w : List Bool). get_or w (i % 64) false)
      (get_or-set_self bits (i / 64) (set word (i % 64) true) [] inside)
    ∙ get_or-set_self word (i % 64) true false place

pub AllBelow : ℕ → List ℕ → Type 0
AllBelow m [] = Unit
AllBelow m (i ∷ idx) = (i < m) × AllBelow m idx

pub set_all-Holds :
    (m : ℕ) (idx : List ℕ) (bits : List (List Bool))
    → AllBelow m idx
    → Holds m bits
    → Holds m (set_all idx bits)
unfolding AllBelow set_all
set_all-Holds m [] bits below h = h
set_all-Holds m (i ∷ idx) bits below h =
    set_all-Holds m idx (set_bit i bits) below.1 (set_bit-Holds m i bits below.0 h)

pub set_all_keeps_bit :
    (idx : List ℕ) (j : ℕ) (bits : List (List Bool))
    → test_bit j bits ≡ true
    → test_bit j (set_all idx bits) ≡ true
unfolding set_all
set_all_keeps_bit [] j bits h = h
set_all_keeps_bit (i ∷ idx) j bits h =
    set_all_keeps_bit idx j (set_bit i bits) (set_bit_keeps i j bits h)

test_all-cons :
    (i : ℕ) (idx : List ℕ) (bits : List (List Bool))
    → test_bit i bits ≡ true
    → test_all idx bits ≡ true
    → test_all (i ∷ idx) bits ≡ true
unfolding test_all
test_all-cons i idx bits h k = rw h k

test_all-uncons :
    (i : ℕ) (idx : List ℕ) (bits : List (List Bool))
    → test_all (i ∷ idx) bits ≡ true
    → (test_bit i bits ≡ true) × (test_all idx bits ≡ true)
unfolding test_all
test_all-uncons i idx bits h = elim (Bool-cases (test_bit i bits)) [
  | inl there ↦ (there, ground (arith, there, h))
  | inr absent ↦ ground (arith, absent, h)
]

-- what passes the test still does after a change that keeps bits
pub test_all_mono :
    (idx : List ℕ) (bits bits' : List (List Bool))
    → ((j : ℕ) → test_bit j bits ≡ true → test_bit j bits' ≡ true)
    → test_all idx bits ≡ true
    → test_all idx bits' ≡ true
unfolding test_all
test_all_mono [] bits bits' keeps h = refl
test_all_mono (i ∷ idx) bits bits' keeps h =
    let (first, rest) = test_all-uncons i idx bits h in
    test_all-cons i idx bits' (keeps i first) (test_all_mono idx bits bits' keeps rest)

pub set_all_self :
    (m : ℕ) (idx : List ℕ) (bits : List (List Bool))
    → AllBelow m idx
    → Holds m bits
    → test_all idx (set_all idx bits) ≡ true
unfolding AllBelow set_all test_all
set_all_self m [] bits below h = refl
set_all_self m (i ∷ idx) bits below h =
    test_all-cons i idx (set_all idx (set_bit i bits))
      (set_all_keeps_bit idx i (set_bit i bits) (set_bit_self m i bits below.0 h))
      (set_all_self m idx (set_bit i bits) below.1 (set_bit-Holds m i bits below.0 h))

pub indices_from-AllBelow : (h : ℕ × ℕ) (m i k : ℕ) → 0 < m → AllBelow m (indices_from h m i k)
unfolding indices_from AllBelow
indices_from-AllBelow h m i zero some_bit = tt
indices_from-AllBelow h m i (suc k) some_bit =
    (mod-lt (add64 h.0 (mul64 i h.1)) some_bit, indices_from-AllBelow h m (suc i) k some_bit)

pub Words64-blank : (count : ℕ) → Words64 (replicate count (replicate 64 false))
unfolding Words64
Words64-blank zero = tt
Words64-blank (suc count) = (refl, Words64-blank count)

pub Words64-cleared :
    (bits : List (List Bool)) → Words64 bits → Words64 (map (λ w. replicate (length w) false) bits)
unfolding Words64
Words64-cleared [] h = tt
Words64-cleared (w ∷ bits) h = (length-replicate (length w) false ∙ h.0, Words64-cleared bits h.1)

pub length-set_all :
    (idx : List ℕ) (bits : List (List Bool)) → length (set_all idx bits) ≡ length bits
unfolding set_all set_bit
length-set_all [] bits = refl
length-set_all (i ∷ idx) bits =
    length-set_all idx (set_bit i bits)
    ∙ length-set bits (i / 64) (set (get_or bits (i / 64) []) (i % 64) true)
