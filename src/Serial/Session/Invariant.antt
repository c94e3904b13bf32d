-- ===== src/Serial/Session/Invariant.antt =====
-- What holds of a session between any two of its steps, in every order of the steps.
use app_runner.Prelude.{
  ℕ, ◌-◌, ◌≤◌, ◌<◌, ◌≡◌, Bool, true, false, none, some, List, [], ◌∷◌, ◌++◌, length, length-append,
  length-drop, arith,
}
use app_runner.Serial.Session.{
  Session, channel_capacity, new_session, step, run, read_from, trim, history_queue, Stream, Event,
  connected, lost, detaching, output, attaching, stopping, clearing, reading,
}

-- At most one attachment's channel is open, and it is that of the attached client; no queue
-- passes the channel's capacity, and the history stays within its limit.
pub record IsValid (s : Session) : Type 0 where
  pub history_bounded : length s.history ≤ s.history_limit
  pub attached_open : (i : ℕ) → s.attached ≡ some i → (s.channel i).closed ≡ false
  pub attached_old : (i : ℕ) → s.attached ≡ some i → i < s.next_attachment
  pub only_attached : (i : ℕ) → (s.channel i).closed ≡ false → s.attached ≡ some i
  pub queue_bounded : (i : ℕ) → length (s.channel i).queue ≤ channel_capacity

pub new_session-IsValid : (limit : ℕ) → IsValid (new_session limit)
unfolding new_session
new_session-IsValid limit = record {
  history_bounded = omega arith;
  attached_open = λ i h. cc;
  attached_old = λ i h. cc;
  only_attached = λ i h. cc;
  queue_bounded = λ i. omega arith;
}

length-trim : (limit : ℕ) (h : List ℕ) → length (trim limit h) ≤ limit
unfolding trim
length-trim limit h = omega (arith, length-drop (length h - limit) h)

length-read_from :
    (n : ℕ) (c : List ℕ) (q : List (List ℕ)) (b : Bool) → length (read_from n c q b).1 ≤ length q
unfolding read_from
length-read_from n (x ∷ c) q b = omega arith
length-read_from n [] [] true = omega arith
length-read_from n [] [] false = omega arith
length-read_from n [] (k ∷ q) b = omega (arith, length-read_from n k q b)

length-history_queue : (h : List ℕ) → length (history_queue h) ≤ 1
length-history_queue [] = omega arith
length-history_queue (b ∷ h) = omega arith

module _ {s : Session} (v : IsValid s) where
  output_keeps : (chunk : List ℕ) → IsValid (step s (output chunk))
  unfolding step
  output_keeps chunk = record {
    history_bounded = ground (arith, length-trim s.history_limit (s.history ++ chunk));
    attached_open = λ i h. ground (arith, v.attached_open i);
    attached_old = λ i h. ground (arith, v.attached_old i);
    only_attached = λ i h. ground (arith, v.only_attached i);
    queue_bounded =
        λ i. ground (arith, v.queue_bounded i, length-append (s.channel i).queue (chunk ∷ []));
  }

  connected_keeps : (c : ℕ) → IsValid (step s (connected c))
  unfolding step
  connected_keeps c = record {
    history_bounded = ground (arith, v.history_bounded);
    attached_open = λ i h. ground (arith, v.attached_open i);
    attached_old = λ i h. ground (arith, v.attached_old i);
    only_attached = λ i h. ground (arith, v.only_attached i);
    queue_bounded = λ i. ground (arith, v.queue_bounded i);
  }

  lost_keeps : (c : ℕ) → IsValid (step s (lost c))
  unfolding step
  lost_keeps c = record {
    history_bounded = ground (arith, v.history_bounded);
    attached_open = λ i h. ground (arith, v.attached_open i);
    attached_old = λ i h. ground (arith, v.attached_old i);
    only_attached = λ i h. ground (arith, v.only_attached i);
    queue_bounded = λ i. ground (arith, v.queue_bounded i);
  }

  detaching_keeps : (k : ℕ) → IsValid (step s (detaching k))
  unfolding step
  detaching_keeps k = record {
    history_bounded = ground (arith, v.history_bounded);
    attached_open = λ i h. ground (arith, v.attached_open i);
    attached_old = λ i h. ground (arith, v.attached_old i);
    only_attached = λ i h. ground (arith, v.only_attached i);
    queue_bounded = λ i. ground (arith, v.queue_bounded i);
  }

  stopping_keeps : IsValid (step s stopping)
  unfolding step
  stopping_keeps = record {
    history_bounded = ground (arith, v.history_bounded);
    attached_open = λ i h. ground (arith, v.attached_open i);
    attached_old = λ i h. ground (arith, v.attached_old i);
    only_attached = λ i h. ground (arith, v.only_attached i);
    queue_bounded = λ i. ground (arith, v.queue_bounded i);
  }

  clearing_keeps : IsValid (step s clearing)
  unfolding step
  clearing_keeps = record {
    history_bounded = ground (arith, v.history_bounded);
    attached_open = λ i h. ground (arith, v.attached_open i);
    attached_old = λ i h. ground (arith, v.attached_old i);
    only_attached = λ i h. ground (arith, v.only_attached i);
    queue_bounded = λ i. ground (arith, v.queue_bounded i);
  }

  reading_keeps : (n : ℕ) (r : Stream) → IsValid (step s (reading n r))
  unfolding step
  reading_keeps n r = record {
    history_bounded = ground (arith, v.history_bounded);
    attached_open = λ i h. ground (arith, v.attached_open i);
    attached_old = λ i h. ground (arith, v.attached_old i);
    only_attached = λ i h. ground (arith, v.only_attached i);
    queue_bounded = λ i. ground (
      arith,
      v.queue_bounded i,
      length-read_from n r.current (s.channel r.attachment).queue (s.channel r.attachment).closed,
    );
  }

  attaching_keeps : IsValid (step s attaching)
  unfolding step
  attaching_keeps = record {
    history_bounded = ground (arith, v.history_bounded);
    attached_open = λ i h. ground (arith, v.attached_open i);
    attached_old = λ i h. ground (arith, v.attached_old i);
    only_attached = λ i h. ground (arith, v.only_attached i);
    queue_bounded = λ i. ground (arith, v.queue_bounded i, length-history_queue s.history);
  }

-- Every step of a session, in every state, keeps it valid.
pub step-IsValid : (s : Session) (e : Event) → IsValid s → IsValid (step s e)
step-IsValid s (connected c) v = connected_keeps v c
step-IsValid s (lost c) v = lost_keeps v c
step-IsValid s (detaching k) v = detaching_keeps v k
step-IsValid s (output chunk) v = output_keeps v chunk
step-IsValid s attaching v = attaching_keeps v
step-IsValid s stopping v = stopping_keeps v
step-IsValid s clearing v = clearing_keeps v
step-IsValid s (reading n r) v = reading_keeps v n r

run-IsValid : (s : Session) (es : List Event) → IsValid s → IsValid (run s es)
unfolding run
run-IsValid s [] v = v
run-IsValid s (e ∷ es) v = run-IsValid (step s e) es (step-IsValid s e v)

-- In every interleaving of QEMU's output, lost and new connections, attachments, reads and stops
-- output goes to one client at most: an attachment's channel is open exactly while it is the attached
-- one; queues and history stay bounded. (What clients write to the guest is no step.)
pub run-new_session-IsValid : (limit : ℕ) (es : List Event) → IsValid (run (new_session limit) es)
run-new_session-IsValid limit es = run-IsValid _ es (new_session-IsValid limit)

-- A session whose stop channel is closed and whose state is cleared.
pub record IsDead (s : Session) : Type 0 where
  pub stopped : s.stopped ≡ true
  pub no_upstream : s.upstream ≡ none
  pub no_client : s.attached ≡ none

step-IsDead : (s : Session) (e : Event) → IsDead s → IsDead (step s e)
unfolding step
step-IsDead s (connected c) d = ground arith
step-IsDead s (lost c) d = ground arith
step-IsDead s (detaching k) d = ground arith
step-IsDead s (output chunk) d = ground arith
step-IsDead s attaching d = ground arith
step-IsDead s stopping d = ground arith
step-IsDead s clearing d = ground arith
step-IsDead s (reading n r) d = ground arith

cleared : (s : Session) → s.stopped ≡ true → IsDead (step s clearing)
unfolding step
cleared s h = ground arith

stays-IsDead : (s : Session) (es : List Event) → IsDead s → IsDead (run s es)
unfolding run
stays-IsDead s [] d = d
stays-IsDead s (e ∷ es) d = stays-IsDead (step s e) es (step-IsDead s e d)

-- Once `session.close` has finished, nothing revives the session: whatever happens afterwards, a
-- late connection included, it has no upstream and no client.
pub run-IsDead :
    (s : Session) (es : List Event) → s.stopped ≡ true → IsDead (run (step s clearing) es)
run-IsDead s es h = stays-IsDead (step s clearing) es (cleared s h)
