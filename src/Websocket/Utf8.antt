-- ===== src/Websocket/Utf8.antt =====
-- go/websocket/utf8.go: UTF-8 text that is checked piece by piece. `valid` is utf8.Valid.
pub mod WellFormed
pub mod CodePoints
pub mod Bulk
use event_work_balance.Base.{
  ℕ, zero, suc, ◌+◌, ◌-◌, List, [], ◌∷◌, ◌++◌, Bool, true, false, ◌&&◌, ◌||◌, not, ◌==◌, ltb, leb,
  Option, none, some, if◌then◌else◌, length, take, drop, get_elem?,
}

-- `need` continuation bytes are to come, the first of them from `lo` to `hi`.
pub record Validator : Type 0 where
  pub need : ℕ
  pub lo : ℕ
  pub hi : ℕ

abbrev pub fresh : Validator
fresh = record { need = 0; lo = 0; hi = 0 }

abbrev pub complete : Validator → Bool
complete v = v.need == 0

abbrev awaits : ℕ → ℕ → ℕ → Option Validator
awaits need lo hi = some (record { need = need; lo = lo; hi = hi })

unfoldable pub step : Validator → ℕ → Option Validator
step v b =
    if not (v.need == 0)
    then (if ltb b v.lo || ltb v.hi b then none else awaits (v.need - 1) 128 191)
    else if ltb b 128
    then awaits 0 128 191
    else if leb 194 b && leb b 223
    then awaits 1 128 191
    else if b == 224
    then awaits 2 160 191
    else if b == 237
    then awaits 2 128 159
    else if leb 225 b && leb b 239
    then awaits 2 128 191
    else if b == 240
    then awaits 3 144 191
    else if leb 241 b && leb b 243
    then awaits 3 128 191
    else if b == 244
    then awaits 3 128 143
    else none

-- The loop over the bytes behind the bulk.
unfoldable pub steps : Validator → List ℕ → Option Validator
unfolding step
steps v [] = some v
steps v (b ∷ bs) = elim (step v b) [ none ↦ none | some w ↦ steps w bs ]

abbrev is_continuation : ℕ → Bool
is_continuation b = leb 128 b && leb b 191

-- Where the bulk ends, looking back over `n` bytes at most from the end of `p`, of which the bytes
-- from `i` on are continuations.
unfoldable pub tail_from : ℕ → ℕ → List ℕ → ℕ
tail_from zero i p = length p
tail_from (suc n) zero p = length p
tail_from (suc n) (suc i) p =
    let further = tail_from n i p in
    elim (get_elem? p i) [
      | none ↦ length p
      | some b ↦ if is_continuation b then further else if leb 192 b then i else length p
    ]

abbrev pub tail_of : List ℕ → ℕ
tail_of p = tail_from 3 (length p) p

module _ (valid : List ℕ → Bool) where
  -- The part of write once no sequence is open.
  unfoldable pub write_open : Validator → List ℕ → Option Validator
  unfolding steps tail_from
  write_open v p =
      let tail = tail_of p in if valid (take tail p) then steps v (drop tail p) else none

  unfoldable pub write : Validator → List ℕ → Option Validator
  unfolding step write_open
  write v [] = if v.need == 0 then write_open v [] else some v
  write v (b ∷ bs) =
      if v.need == 0
      then write_open v (b ∷ bs)
      else elim (step v b) [ none ↦ none | some w ↦ write w bs ]
