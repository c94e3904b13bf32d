-- ===== src/Serial/Session/History.antt =====
-- What a session retains for a later client.
use native.Mathlib.Nat.{suc-add, zero-add}
use app_runner.Prelude.{
  ℕ, zero, suc, ◌+◌, ◌-◌, ◌≤◌, ◌≡◌, refl, sym, ap, ◌∙◌, Bool, true, false, ◌⊎◌, inl, inr, List, [],
  ◌∷◌, ◌++◌, length, drop, length-append, length-drop, arith,
}
use app_runner.Serial.Session.{Session, new_session, step, run, trim, Event, output}
use mathlib.Core.List.{append-nil, append_assoc}

drop-append : (k : ℕ) (h c : List ℕ) → k ≤ length h → drop k h ++ c ≡ drop k (h ++ c)
drop-append zero h c p = refl
drop-append (suc k) [] c p = absurd (omega arith)
drop-append (suc k) (x ∷ h) c p = drop-append k h c (omega arith)

drop-nil : (k : ℕ) → drop {A = ℕ} k [] ≡ []
drop-nil zero = refl
drop-nil (suc k) = refl

drop-drop : (k m : ℕ) (h : List ℕ) → drop m (drop k h) ≡ drop (k + m) h
drop-drop zero m h = rw zero-add
drop-drop (suc k) m [] = rw (suc-add, drop-nil m)
drop-drop (suc k) m (x ∷ h) = rw suc-add (drop-drop k m h)

trim-append : (limit : ℕ) (h c : List ℕ) → trim limit (trim limit h ++ c) ≡ trim limit (h ++ c)
unfolding trim
trim-append limit h c =
    let k : ℕ = length h - limit in
    let m : ℕ = length (drop k h ++ c) - limit in
    ap (drop m) (drop-append k h c (omega arith))
    ∙ drop-drop k m (h ++ c)
    ∙ ap (λ n. drop n (h ++ c))
        (omega (arith, length-append (drop k h) c, length-drop k h, length-append h c))

-- All that QEMU has written.
abbrev pub outputs : List Event → List ℕ
outputs [] = []
outputs (output chunk ∷ es) = chunk ++ outputs es
outputs (_ ∷ es) = outputs es

history-output :
    (s : Session) (chunk : List ℕ)
    → (step s (output chunk)).history ≡ trim s.history_limit (s.history ++ chunk)
unfolding step
history-output s chunk = ground arith

limit-step : (s : Session) (e : Event) → (step s e).history_limit ≡ s.history_limit
unfolding step
limit-step s e = ground arith

-- Only output changes the history.
abbrev is_output : Event → Bool
is_output (output chunk) = true
is_output _ = false

history-step : (s : Session) (e : Event) → is_output e ≡ false → (step s e).history ≡ s.history
unfolding step
history-step s e h = ground arith

outputs-cons : (e : Event) (es : List Event) → is_output e ≡ false → outputs (e ∷ es) ≡ outputs es
outputs-cons (output chunk) es h = cc
outputs-cons _ es h = refl

history-run :
    (limit : ℕ) (s : Session) (all : List ℕ) (es : List Event)
    → s.history_limit ≡ limit
    → s.history ≡ trim limit all
    → (run s es).history ≡ trim limit (all ++ outputs es)
unfolding run
history-run limit s all [] l h = rw append-nil h
history-run limit s all (e ∷ es) l h = elim (event_cases e) [
  | inl (chunk, p) ↦ rw p (
      history-run limit (step s (output chunk)) (all ++ chunk) es (limit-step s _ ∙ l) (
        history-output s chunk
        ∙ ap (λ n. trim n (s.history ++ chunk)) l
        ∙ ap (λ t. trim limit (t ++ chunk)) h
        ∙ trim-append limit all chunk)
      ∙ ap (trim limit) (append_assoc all chunk (outputs es)))
  | inr q ↦
      history-run limit (step s e) all es (limit-step s e ∙ l) (history-step s e q ∙ h)
      ∙ ap (λ t. trim limit (all ++ t)) (sym (outputs-cons e es q))
]
  where
    event_cases : (e : Event) → ((c : List ℕ) × (e ≡ output c)) ⊎ (is_output e ≡ false)
    event_cases (output c) = inl (c, refl)
    event_cases _ = inr refl

-- What is dropped from the front, and what is left.
dropped :
    (k : ℕ) (h : List ℕ)
    → k ≤ length h
    → (older : List ℕ) × (h ≡ older ++ drop k h) × (length older ≡ k)
dropped zero h p = ([], refl, refl)
dropped (suc k) [] p = absurd (omega arith)
dropped (suc k) (x ∷ h) p =
    let (older, e, l) = dropped k h (omega arith) in (x ∷ older, ap (λ t. x ∷ t) e, omega arith)

-- The history is what the guest wrote last: in every interleaving of a session's steps, all output
-- since the session began is some older bytes and then the history, and there are as many older
-- bytes as the output exceeds `limit` by, none where it does not.
pub history-run-new_session :
    (limit : ℕ) (es : List Event)
    → (older : List ℕ) × (outputs es ≡ older ++ (run (new_session limit) es).history)
      × (length older ≡ length (outputs es) - limit)
unfolding new_session trim
history-run-new_session limit es =
    let h = history-run limit (new_session limit) [] es refl (sym (drop-nil _)) in
    let (older, e, l) = dropped (length (outputs es) - limit) (outputs es) (omega arith) in
    (older, e ∙ ap (λ t. older ++ t) (sym h), l)
