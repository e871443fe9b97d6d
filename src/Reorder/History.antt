-- ===== src/Reorder/History.antt =====
-- Any sequence of calls of the reorder buffer's operations, from a new session on.
use udpfec.Base.{ℕ, ◌≡◌, ◌<◌, refl, List, [], ◌∷◌, Bool, Option, none, some, arith}
use udpfec.Reorder.Buffer.{
  Reorder, Frame, has_frame, occupied, slot_at, sn_mod, reorder_enqueue, reorder_clear, gap_tick,
  fresh_reorder,
}
use udpfec.Reorder.Slots.{malloced, freed}
use udpfec.Reorder.Valid.{IsValid}
use udpfec.Reorder.Enqueue.{EndsValid}
use udpfec.Reorder.Operations.{reorder_enqueue-IsValid, reorder_clear-IsValid, gap_tick-IsValid}

pub data Action : Type 0 where
  enqueue : Bool → ℕ → Option Frame → ℕ → ℕ → Action
  clear : Action
  timer : ℕ → ℕ → Action

unfoldable pub act : Action → Reorder → Option Reorder
act (enqueue given sn frame ts_us hint) r = reorder_enqueue given r sn frame ts_us hint
act clear r = some (reorder_clear r)
act (timer ts_us pps) r = gap_tick r ts_us pps

unfoldable pub act_all : List Action → Reorder → Option Reorder
act_all [] r = some r
act_all (a ∷ rest) r = elim (act a r) [ none ↦ none | some r' ↦ act_all rest r' ]

-- The clock is past 0, and the numbers are words of 32 bits.
abbrev pub IsReal : Action → Type 0
IsReal (enqueue given sn frame ts_us hint) = (0 < ts_us) × (sn < sn_mod) × (hint < sn_mod)
IsReal clear = Unit {0}
IsReal (timer ts_us pps) = 0 < ts_us

abbrev pub AllReal : List Action → Type 0
AllReal [] = Unit {0}
AllReal (a ∷ rest) = IsReal a × AllReal rest

pub act-IsValid : (a : Action) (r : Reorder) → IsReal a → IsValid r → EndsValid (act a r)
unfolding act
act-IsValid (enqueue given sn frame ts_us hint) r (pos, b, c) valid =
    reorder_enqueue-IsValid given r sn frame ts_us hint valid b c pos
act-IsValid clear r real valid = (reorder_clear r, refl, reorder_clear-IsValid r valid)
act-IsValid (timer ts_us pps) r real valid = gap_tick-IsValid r ts_us pps valid real

act_all-EndsValid :
    (l : List Action) (r : Reorder) → AllReal l → IsValid r → EndsValid (act_all l r)
unfolding act_all
act_all-EndsValid [] r real valid = (r, refl, valid)
act_all-EndsValid (a ∷ rest) r real valid =
    let (r1, e, valid1) = act-IsValid a r real.0 valid in
    let (r2, e2, valid2) = act_all-EndsValid rest r1 real.1 valid1 in
    (r2, rw (e, act_all) e2, valid2)

pub fresh_reorder-IsValid : IsValid fresh_reorder
unfolding slot_at occupied has_frame freed malloced
fresh_reorder-IsValid =
    ((refl, omega arith, refl), refl, (λ e. (refl, refl)), λ h. absurd (omega arith))

-- In a new session, every sequence of enqueues, clears and timer ticks ends, whatever the pool
-- gives, where the clock is past 0; and it ends in a valid state: the buffer has 16 slots, the slot
-- of the next sequence number is free, every buffer handed out is in a slot or was given back, and
-- the gap's timer runs while anything waits.
pub act_all_fresh-IsValid :
    (l : List Action) → AllReal l → (r : Reorder) × (act_all l fresh_reorder ≡ some r) × IsValid r
act_all_fresh-IsValid l real = act_all-EndsValid l fresh_reorder real fresh_reorder-IsValid
