-- ===== src/Presence/Failover/Backoff.antt =====
-- Health and cooldown of a server along a history of reports.
use sip_event_processor.Prelude.{ℕ, ◌+◌, ◌*◌, ◌≡◌, refl, List, [], ◌∷◌, min, ltb, arith}
use sip_event_processor.Types.{seconds}
use sip_event_processor.Presence.Failover.{ServerHealth, note_success, note_failure}

-- A report, with the time at which it is made.
pub data Report : Type 0 where
  success failure : ℕ → Report

pub note : ℕ → Report → ServerHealth → ServerHealth
note cooldown (success now) h = note_success now h
note cooldown (failure now) h = note_failure cooldown now h

pub notes : ℕ → List Report → ServerHealth → ServerHealth
notes cooldown [] h = h
notes cooldown (r ∷ rs) h = notes cooldown rs (note cooldown r h)

-- The failures at the end of a history, after `n` of them before it.
abbrev streak : ℕ → List Report → ℕ
streak n [] = n
streak n (success now ∷ rs) = streak 0 rs
streak n (failure now ∷ rs) = streak (n + 1) rs

-- The cooldown at the end of a history, that was `until` before it.
abbrev cooldown_after : ℕ → ℕ → ℕ → List Report → ℕ
cooldown_after cooldown until n [] = until
cooldown_after cooldown until n (success now ∷ rs) = cooldown_after cooldown 0 0 rs
cooldown_after cooldown until n (failure now ∷ rs) =
    cooldown_after cooldown (now + seconds (cooldown * min (n + 1) 5)) (n + 1) rs

-- A server is healthy exactly while fewer than three failures stand in a row; this is kept by any
-- history of reports, after which the run of failures is that at the end of the history and the
-- cooldown ends 1, 2, 3, 4 or at most 5 times the base after the last failure, or is over.
pub notes-streak :
    (cooldown : ℕ) (rs : List Report) (h : ServerHealth)
    → h.is_healthy ≡ ltb h.consecutive_failures 3
    → let h' = notes cooldown rs h in
      (h'.consecutive_failures ≡ streak h.consecutive_failures rs)
      × (h'.is_healthy ≡ ltb (streak h.consecutive_failures rs) 3)
      × (h'.cooldown_until ≡ cooldown_after cooldown h.cooldown_until h.consecutive_failures rs)
unfolding notes note note_success note_failure
notes-streak cooldown [] h e = (refl, e, refl)
notes-streak cooldown (success now ∷ rs) h e = notes-streak cooldown rs (note_success now h) refl
notes-streak cooldown (failure now ∷ rs) h e =
    notes-streak cooldown rs (note_failure cooldown now h) (ground arith)
