-- ===== src/Session/Probe.antt =====
-- src/session.cc, `update_all`: how long a session that nobody answers goes on.
use ndppd.Base.{
  ℕ, zero, suc, ◌+◌, ◌≤◌, ◌≡◌, ◌⊎◌, refl, ◌∙◌, true, false, List, [], ◌∷◌, ◌++◌, Option, none, some,
  arith, inl, inr, length,
}
use ndppd.Base.Int.{ℤ, pos, ◌-ℤ◌, ◌≤ℤ◌, -ℤ_parts, ltb_ℤ, leb_ℤ}
use ndppd.Output.{Output}
use ndppd.Session.{
  Config, Session, waiting, renewing, invalid, send_solicit, keep, remove, retry, expire, update,
}

-- The turns of `update_all` for one session, with the time since the turn before, while no message
-- arrives: the session, unless it is removed, and what it sends.
pub silence : Config → List ℤ → Session → Option Session × List Output
silence c [] s = (some s, [])
silence c (t ∷ ts) s = elim (update c t s) [
  | keep s' sent ↦ (let (rest, later) = silence c ts s' in (rest, sent ++ later))
  | remove s' ↦ (none, [])
]

-- Every turn comes later than the times that a session is given.
abbrev pub AllLate : Config → List ℤ → Type 0
AllLate c [] = Unit {0}
AllLate c (t ∷ ts) = (ltb_ℤ c.timeout t ≡ true) × (ltb_ℤ c.deadtime t ≡ true) × AllLate c ts

-- `n` times the same messages.
abbrev pub repeat : ℕ → List Output → List Output
repeat zero out = []
repeat (suc n) out = out ++ repeat n out

overdue :
    (c : Config) (t : ℤ) (s : Session)
    → ltb_ℤ s.ttl t ≡ true
    → update c t s ≡ expire c (record s { ttl = s.ttl -ℤ t }) s.status
unfolding update
overdue c t s h =
    let late : leb_ℤ (pos 0) (s.ttl -ℤ t) ≡ false = ground (arith, -ℤ_parts s.ttl t) in rw late

late_of_le : (a b t : ℤ) → a ≤ℤ b → ltb_ℤ b t ≡ true → ltb_ℤ a t ≡ true
late_of_le a b t h l = ground arith

silence_keep :
    (c : Config) (t : ℤ) (ts : List ℤ) (s s' : Session) (sent : List Output)
    (r : Option Session × List Output)
    → update c t s ≡ keep s' sent
    → silence c ts s' ≡ r
    → silence c (t ∷ ts) s ≡ (r.0, sent ++ r.1)
unfolding silence
silence_keep c t ts s s' sent r e f = rw (e, silence) (rw f)

silence_remove :
    (c : Config) (t : ℤ) (ts : List ℤ) (s s' : Session)
    → update c t s ≡ remove s'
    → silence c (t ∷ ts) s ≡ (none, [])
unfolding silence
silence_remove c t ts s s' e = rw (e, silence)

-- A turn of a session that still has tries left.
update-retry :
    (c : Config) (t : ℤ) (k : ℕ) (s : Session)
    → (s.status ≡ waiting) ⊎ (s.status ≡ renewing)
    → s.retries ≡ pos (s.fails + suc k)
    → ltb_ℤ s.ttl t ≡ true
    → update c t s ≡ keep (record s { ttl = c.timeout; fails = suc s.fails }) (send_solicit s)
unfolding expire retry send_solicit
update-retry c t k s st r l = rw (overdue c t s l) (ground arith)

update_last_try :
    (c : Config) (t : ℤ) (s : Session)
    → s.status ≡ waiting
    → s.retries ≡ pos s.fails
    → ltb_ℤ s.ttl t ≡ true
    → update c t s ≡ keep (record s { ttl = c.deadtime; status = invalid }) []
unfolding expire
update_last_try c t s st r l = rw (overdue c t s l) (ground arith)

update_last_renewal :
    (c : Config) (t : ℤ) (s : Session)
    → s.status ≡ renewing
    → s.retries ≡ pos s.fails
    → ltb_ℤ s.ttl t ≡ true
    → update c t s ≡ remove (record s { ttl = s.ttl -ℤ t })
unfolding expire
update_last_renewal c t s st r l = rw (overdue c t s l) (ground arith)

update-invalid :
    (c : Config) (t : ℤ) (s : Session)
    → s.status ≡ invalid
    → ltb_ℤ s.ttl t ≡ true
    → update c t s ≡ remove (record s { ttl = s.ttl -ℤ t })
unfolding expire
update-invalid c t s st l = rw (overdue c t s l) (ground arith)

-- The time of a session was set by its last message.
abbrev retried : Config → Session → Session
retried c s = record s { ttl = c.timeout; fails = suc s.fails }

same_probes :
    (k : ℕ) (c : Config) (s : Session)
    → ◌≡◌ {A = Option Session × List Output}
        (none, repeat k (send_solicit (retried c s)))
        (none, repeat k (send_solicit s))
unfolding send_solicit
same_probes k c s = refl

-- A waiting session that nobody answers, with k tries left and turns that come later than its
-- times, sends exactly k more rounds of solicitations and is removed within k + 2 turns.
pub silence-waiting :
    (k : ℕ) (c : Config) (ts : List ℤ) (s : Session)
    → s.status ≡ waiting
    → s.retries ≡ pos (s.fails + k)
    → s.ttl ≤ℤ c.timeout
    → AllLate c ts
    → k + 2 ≤ length ts
    → silence c ts s ≡ (none, repeat k (send_solicit s))
silence-waiting zero c (t ∷ u ∷ ts) s st r le (lt, ld, (lu, lv, late)) long =
    silence_keep c t (u ∷ ts) s _ [] (none, [])
      (update_last_try c t s st (ground arith) (late_of_le s.ttl c.timeout t le lt))
      (silence_remove c u ts _ _ (update-invalid c u _ refl lv))
silence-waiting (suc k) c (t ∷ ts) s st r le (lt, ld, late) long =
    silence_keep c t ts s (retried c s) (send_solicit s) (none, repeat k (send_solicit s))
      (update-retry c t k s (inl st) r (late_of_le s.ttl c.timeout t le lt))
      (silence-waiting k c ts (retried c s) st (ground arith) (omega arith) late (omega arith)
        ∙ same_probes k c s)
silence-waiting k c [] s st r le late long = absurd (omega arith)
silence-waiting zero c (t ∷ []) s st r le late long = absurd (omega arith)

-- A session that is being renewed and that nobody answers, with k tries left and turns that come
-- later than its times, sends exactly k more rounds of solicitations and is removed within k + 1
-- turns.
pub silence-renewing :
    (k : ℕ) (c : Config) (ts : List ℤ) (s : Session)
    → s.status ≡ renewing
    → s.retries ≡ pos (s.fails + k)
    → s.ttl ≤ℤ c.timeout
    → AllLate c ts
    → k + 1 ≤ length ts
    → silence c ts s ≡ (none, repeat k (send_solicit s))
silence-renewing zero c (t ∷ ts) s st r le (lt, ld, late) long =
    silence_remove c t ts s _
      (update_last_renewal c t s st (ground arith) (late_of_le s.ttl c.timeout t le lt))
silence-renewing (suc k) c (t ∷ ts) s st r le (lt, ld, late) long =
    silence_keep c t ts s (retried c s) (send_solicit s) (none, repeat k (send_solicit s))
      (update-retry c t k s (inr st) r (late_of_le s.ttl c.timeout t le lt))
      (silence-renewing k c ts (retried c s) st (ground arith) (omega arith) late (omega arith)
        ∙ same_probes k c s)
silence-renewing k c [] s st r le late long = absurd (omega arith)
