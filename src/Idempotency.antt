-- ===== src/Idempotency.antt =====
-- `idempotency.Cache` of idempotency/idempotency.go, as the steps of goroutines between the locks of its mutex.
-- An entry is a cell of the heap, which leaders and the map share by its index; what its `done` channel
-- says is `completed`. Clocks are numbers, and 0 is the zero time; a negative TTL or maximum is 0 here, which
-- the code treats alike. The ranges over the map go in the order of the list. `flights` lists the leaders that run `fn`.
-- A recovered panic of `fn` is a result with an error. The hook and the counter of panics are left out.
use kit4go.Common.Assoc.{lookup, put, erase, erase_if}
use kit4go.Common.{
  ℕ, zero, suc, ◌+◌, ◌⊎◌, inl, inr, Bool, true, false, ◌&&◌, ◌||◌, not, Option, none, some, List,
  [], ◌∷◌, ◌++◌, ltb, leb, ◌==◌, if◌then◌else◌, length, set, get_or,
}
pub mod Trims
pub mod Flight
mod Tests

pub record Entry (V E : Type 0) : Type 0 where
  pub result : Option (V ⊎ E)
  pub completed : Bool
  pub expires_at : ℕ

pub record Cache (K V E : Type 0) : Type 0 where
  pub heap : List (Entry V E)
  pub entries : List (K × ℕ)
  pub ttl : ℕ
  pub max_entries : ℕ
  pub cache_errors : Bool
  pub flights : List (K × ℕ)

-- how a call of `Do` goes on after its first lock
pub data Start (V E : Type 0) : Type 0 where
  cached : Option (V ⊎ E) → Start V E
  follow lead : ℕ → Start V E

unfoldable pub empty_entry : {V E : Type 0} → Entry V E
empty_entry = record { result = none; completed = false; expires_at = 0 }

unfoldable pub expired : {V E : Type 0} → ℕ → Entry V E → Bool
expired now e = not (e.expires_at == 0) && ltb e.expires_at now

unfoldable pub is_completed : {V E : Type 0} → List (Entry V E) → ℕ → Bool
is_completed heap id = (get_or heap id empty_entry).completed

-- an entry that the first pass of `evictLocked` drops
unfoldable pub is_stale : {V E : Type 0} → List (Entry V E) → ℕ → ℕ → Bool
unfolding is_completed expired
is_stale heap now id = is_completed heap id && expired now (get_or heap id empty_entry)

-- whether `finishLocked` keeps the entry
unfoldable pub keeps : {V E : Type 0} → Bool → V ⊎ E → Bool
keeps cache_errors (inl v) = true
keeps cache_errors (inr e) = cache_errors

module _ {K V E : Type 0} (dec : Discrete K) where
  -- the completed entry that expires first, against the best one so far
  unfoldable pub oldest : List (Entry V E) → Option (K × ℕ) → List (K × ℕ) → Option (K × ℕ)
  unfolding is_completed
  oldest heap best [] = best
  oldest heap best (e ∷ es) =
      let t = (get_or heap e.1 empty_entry).expires_at in
      let beats : Bool = elim best [ none ↦ true | some b ↦ ltb t b.1 ] in
      oldest heap (if is_completed heap e.1 && beats then some (e.0, t) else best) es

  -- the second pass; the fuel is the number of entries, one of which each round drops
  unfoldable pub drop_oldest : ℕ → ℕ → List (Entry V E) → List (K × ℕ) → List (K × ℕ)
  unfolding oldest
  drop_oldest zero most heap es = es
  drop_oldest (suc fuel) most heap es =
      if leb (length es) most then es else elim (oldest heap none es) [
        | none ↦ es
        | some b ↦ drop_oldest fuel most heap (erase dec b.0 es)
      ]

  unfoldable pub evict : ℕ → ℕ → List (Entry V E) → List (K × ℕ) → List (K × ℕ)
  unfolding is_stale drop_oldest
  evict now most heap es =
      if most == 0 || leb (length es) most
      then es
      else (let rest = erase_if (is_stale heap now) es in drop_oldest (length rest) most heap rest)

  -- `Do` up to the run of `fn`, or to the wait
  unfoldable pub become_leader : K → ℕ → Cache K V E → Start V E × Cache K V E
  unfolding evict
  become_leader key now c =
      let id = length c.heap in
      let heap = c.heap ++ (empty_entry ∷ []) in
      (
        Start.lead id,
        record c {
          heap = heap;
          entries = evict now c.max_entries heap (put dec key id c.entries);
          flights = (key, id) ∷ c.flights;
        },
      )

  unfoldable pub start : K → ℕ → Cache K V E → Start V E × Cache K V E
  unfolding become_leader expired
  start key now c = elim (lookup dec key c.entries) [
    | none ↦ become_leader key now c
    | some id ↦
        let e = get_or c.heap id empty_entry in
        if e.completed
        then (if expired now e then become_leader key now c else (Start.cached e.result, c))
        else (Start.follow id, c)
  ]

  -- the end of the leader of `key` that made the entry `id`
  unfoldable pub finish : K → ℕ → V ⊎ E → ℕ → Cache K V E → Cache K V E
  unfolding keeps
  finish key id result now c =
      let keep = keeps c.cache_errors result in
      record c {
        heap = set c.heap id (record {
          result = some result;
          completed = true;
          expires_at = if keep && ltb 0 c.ttl then now + c.ttl else 0;
        });
        entries = if keep then c.entries else erase dec key c.entries;
        flights = erase_if (λ i. i == id) c.flights;
      }

  unfoldable pub forget : K → Cache K V E → Cache K V E
  forget key c = record c { entries = erase dec key c.entries }

  unfoldable pub clear : Cache K V E → Cache K V E
  clear c = record c { entries = [] }

  unfoldable pub len : Cache K V E → ℕ
  len c = length c.entries
