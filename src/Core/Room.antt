-- ===== src/Core/Room.antt =====
-- How often the loop in `f` of src/core.cc can still lower a difference.
use ai_statefultask_testsuit.Base.{
  ℕ, zero, suc, ◌+◌, ◌-◌, ◌^◌, ◌<◌, ◌≤◌, ◌≡◌, refl, min, inl, inr, true, false, ◌==◌, arith,
  Bool-cases,
}
use ai_statefultask_testsuit.Core.{
  Reading, Loop, Buffer, bufsize, less, rank, negative, store, diff, other_index, round,
}
use ai_statefultask_testsuit.Core.Rounds.{is_measured, lowers, round-my_diff_buffer}

-- How many differences within the limits are below `d`: those from -299 to 39999.
unfoldable pub room_below : ℕ → ℕ
unfolding rank
room_below d = min (rank d - rank (negative 299)) 40299

-- The sum for the first slots.
unfoldable pub room : ℕ → Buffer → ℕ
unfolding room_below
room zero d = 0
room (suc n) d = room_below (d n) + room n d

rank_top : rank 40000 ≡ 2 ^ 63 + 40000
unfolding rank
rank_top = refl

rank-negative : (rank (negative 300) ≡ 2 ^ 63 - 300) × (rank (negative 299) ≡ 2 ^ 63 - 299)
unfolding rank
rank-negative = (refl, refl)

less-room_below :
    (x d : ℕ)
    → less x 40000 ≡ true
    → less (negative 300) x ≡ true
    → less x d ≡ true
    → room_below x < room_below d
unfolding less room_below
less-room_below x d top bottom lt =
    let upper = rank_top in let (lower, zeroth) = rank-negative in ground arith

room-store_above : (n k x : ℕ) (d : Buffer) → n ≤ k → room n (store k x d) ≡ room n d
unfolding room
room-store_above zero k x d le = refl
room-store_above (suc n) k x d le =
    let rest = room-store_above n k x d (omega arith) in
    let other : (n == k) ≡ false = ground arith in rw (other, rest) refl

room-store :
    (n k x : ℕ) (d : Buffer)
    → k < n
    → room_below x < room_below (d k)
    → room n (store k x d) < room n d
unfolding room
room-store zero k x d lt le = omega arith
room-store (suc n) k x d lt le = elim (Bool-cases (n == k)) [
  | inl same ↦
      let e : n ≡ k = ground arith in
      let rest = room-store_above n k x d (omega arith) in rw (same, rest, e) (omega arith)
  | inr other ↦ let rest = room-store n k x d (ground arith) le in rw other (omega arith)
]

lowers-bounds :
    (r : Reading) (s : Loop)
    → lowers r s ≡ true
    → (less (diff r) 40000 ≡ true)
      × (less (negative 300) (diff r) ≡ true)
      × (less (diff r) (s.my_diff_buffer (other_index r)) ≡ true)
unfolding lowers is_measured
lowers-bounds r s e = ground arith

-- A round that lowers a difference takes from the room.
pub room-round :
    (r : Reading) (s : Loop)
    → lowers r s ≡ true
    → room bufsize (round r s).my_diff_buffer < room bufsize s.my_diff_buffer
room-round r s e =
    let (top, bottom, lt) = lowers-bounds r s e in
    rw (round-my_diff_buffer r s, e)
      (room-store bufsize (other_index r) (diff r) s.my_diff_buffer (omega arith)
        (less-room_below (diff r) (s.my_diff_buffer (other_index r)) top bottom lt))
