-- ===== src/Wake/Alone.antt =====
-- Moves of one hart alone: those of a waker against `wake_slot` of Runtime.antt (`runtime_wake_slot` of
-- tpa/lib/src/tpa_runtime.c), and those of the sleeper from where it waits.
use tpa.Base.{
  ℕ, suc, ◌+◌, ◌/◌, ◌%◌, ◌^◌, ◌<◌, ◌≡◌, ◌≢◌, ◌↔◌, List, [], ◌∷◌, ◌==◌, bit_or, arith, refl, sym,
  ◌∙◌, Bool-cases, inl, inr, if◌then◌else◌,
}
use tpa.State.{World, Event, max_procs_per_hart, Config}
use tpa.State.Event.{wake_hart, wake_all_harts}
use tpa.Runtime.{wake_slot, done, has_failed}
use tpa.Sched.{set_ready_slot, ring_if_armed}
use tpa.Wake.{Bed, SleeperPc, WakerPc, WakerMove, Night, set_word, set_rx}
use tpa.Wake.Safety.{SleeperRun}

-- The wakes in the log that are for hart `h`.
abbrev pub wakes : ℕ → List Event → ℕ
wakes h [] = 0
wakes h (wake_hart g ∷ log) = (if g == h then 1 else 0) + wakes h log
wakes h (wake_all_harts ∷ log) = 1 + wakes h log
wakes h (_ ∷ log) = wakes h log

abbrev pub bed_of : ℕ → World → Bed
bed_of h w = record { rx = w.rx h; credits = wakes h w.log; done = done w; failed = has_failed w }

-- From where a waker stands until it is idle again.
pub data Finish : Bed → WakerPc → Bed → Type 0 where
  finished : {b : Bed} → Finish b WakerPc.idle b
  moves :
      {b b1 b' : Bed} {p q : WakerPc}
      → p ≢ WakerPc.idle
      → WakerMove b p b1 q
      → Finish b1 q b'
      → Finish b p b'

abbrev pub marked : ℕ → Bed → Bed
marked slot b =
    set_rx (set_word b.rx (slot / 64) (bit_or (b.rx.bits (slot / 64)) (2 ^ (slot % 64)))) b

-- With the bell rung.
abbrev pub rung : Bed → Bed
rung b = set_rx (record (b.rx) { bell = bit_or b.rx.bell 1 }) b

abbrev pub one_more : Bed → Bed
one_more b = record b { credits = suc b.credits }

abbrev pub after : Bed → Bed
after b =
    if b.rx.armed % 2 == 0 then b else if b.rx.bell % 2 == 0 then one_more (rung b) else rung b

idle-ends : {b b' : Bed} → Finish b WakerPc.idle b' → b' ≡ b
idle-ends Finish.finished = refl
idle-ends (Finish.moves busy move rest) = absurd (busy refl)

waking-ends : {b b' : Bed} → Finish b WakerPc.waking b' → b' ≡ one_more b
waking-ends (Finish.moves busy WakerMove.send_wake rest) = idle-ends rest

ringing-ends :
    {b b' : Bed}
    → Finish b WakerPc.ringing b'
    → b' ≡ (if b.rx.bell % 2 == 0 then one_more (rung b) else rung b)
ringing-ends (Finish.moves busy (WakerMove.rung_already on) rest) =
    ground (arith, idle-ends rest, on)
ringing-ends (Finish.moves busy (WakerMove.first_ring off) rest) =
    ground (arith, waking-ends rest, off)

asking-ends : {b b' : Bed} → Finish b WakerPc.asking b' → b' ≡ after b
asking-ends (Finish.moves busy (WakerMove.not_armed off) rest) = ground (arith, idle-ends rest, off)
asking-ends (Finish.moves busy (WakerMove.is_armed on) rest) = ground (arith, ringing-ends rest, on)

after-wake_slot :
    (cfg : Config) (h slot : ℕ) (w : World)
    → h < cfg.nr_harts
    → slot < max_procs_per_hart
    → after (marked slot (bed_of h w)) ≡ bed_of h (wake_slot cfg h slot w)
unfolding wake_slot set_ready_slot ring_if_armed done has_failed
after-wake_slot cfg h slot w here fits = elim (Bool-cases ((w.rx h).armed % 2 == 0)) [
  | inl off ↦ ground arith
  | inr on ↦ elim (Bool-cases ((w.rx h).bell % 2 == 0)) [
    | inl still ↦ ground arith
    | inr rings ↦ ground arith
  ]
]

asking_busy : WakerPc.asking ≢ WakerPc.idle
asking_busy e = absurd (ground arith)

ringing_busy : WakerPc.ringing ≢ WakerPc.idle
ringing_busy e = absurd (ground arith)

waking_busy : WakerPc.waking ≢ WakerPc.idle
waking_busy e = absurd (ground arith)

Finish-to : {b b1 b2 : Bed} {p : WakerPc} → Finish b p b1 → b1 ≡ b2 → Finish b p b2
Finish-to run e = rw (sym e) run

after-ends : (b : Bed) → Finish b WakerPc.asking (after b)
after-ends b = elim (Bool-cases (b.rx.armed % 2 == 0)) [
  | inl off ↦
      Finish-to (Finish.moves asking_busy (WakerMove.not_armed (ground arith)) Finish.finished)
        (ground arith)
  | inr on ↦ elim (Bool-cases (b.rx.bell % 2 == 0)) [
    | inl still ↦
        Finish-to
          (Finish.moves asking_busy (WakerMove.is_armed (ground arith)) (
            Finish.moves ringing_busy (WakerMove.first_ring (ground arith))
              (Finish.moves waking_busy WakerMove.send_wake Finish.finished)))
          (ground arith)
    | inr rings ↦
        Finish-to
          (Finish.moves asking_busy (WakerMove.is_armed (ground arith))
            (Finish.moves ringing_busy (WakerMove.rung_already (ground arith)) Finish.finished))
          (ground arith)
  ]
]

-- The moves of a hart that wakes another one add up to `wake_slot`: from where it has set the
-- ready bit of an existing slot of an existing hart until it is idle again, undisturbed by the
-- others, it can end in one state only, the one that `wake_slot` of tpa_runtime.c leads to, and
-- it can end there. The wakes on their way are those that the log has for that hart.
pub wake_slot-moves :
    (cfg : Config) (h slot : ℕ) (w : World) (b : Bed)
    → h < cfg.nr_harts
    → slot < max_procs_per_hart
    → Finish (marked slot (bed_of h w)) WakerPc.asking b ↔ (b ≡ bed_of h (wake_slot cfg h slot w))
wake_slot-moves cfg h slot w b here fits =
    (λ run. asking-ends run ∙ same, λ e. rw (e ∙ sym same) (after-ends (marked slot (bed_of h w))))
  where
    same : after (marked slot (bed_of h w)) ≡ bed_of h (wake_slot cfg h slot w)
    same = after-wake_slot cfg h slot w here fits

-- A run of the sleeper alone, from the wait on, that takes all ready bits and uses one wake up.
abbrev pub TakesBits : Bed → (ℕ → WakerPc) → Type 0
TakesBits b wakers =
    (t : Night) × SleeperRun (record { bed = b; sleeper = SleeperPc.wait; wakers = wakers }) t
    × (t.sleeper ≡ SleeperPc.idle)
    × (t.bed.rx.bits 0 ≡ 0)
    × (t.bed.rx.bits 1 ≡ 0)
    × (suc t.bed.credits ≡ b.credits)
