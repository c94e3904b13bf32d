-- ===== src/Serial/Session/Delivery.antt =====
-- What an attached client reads.
use mathlib.Core.List.{append-nil, append_assoc}
use app_runner.Prelude.{
  ℕ, ◌≡◌, ◌≢◌, ◌⊎◌, inl, inr, refl, sym, ap, subst, ◌∙◌, Bool, true, false, Option, none, some,
  List, [], ◌∷◌, ◌++◌, take, drop, take-append-drop, arith,
}
use app_runner.Serial.Session.{
  Session, Stream, ReadResult, bytes, eof, blocked, publish, lost_upstream, attach, stream,
  read_from, read, history_queue,
}

abbrev pub joined : List (List ℕ) → List ℕ
joined [] = []
joined (c ∷ cs) = c ++ joined cs

joined-append : (cs ds : List (List ℕ)) → joined (cs ++ ds) ≡ joined cs ++ joined ds
joined-append [] ds = refl
joined-append (c ∷ cs) ds = simp (joined-append cs ds, append_assoc)

-- The bytes that a stream still has to hand out.
abbrev pub owed : Stream → Session → List ℕ
owed r s = r.current ++ joined (s.channel r.attachment).queue

abbrev pub received : ReadResult → List ℕ
received (bytes b) = b
received eof = []
received blocked = []

-- What happens while a client is attached: output, the loss of the upstream, and reads.
pub data ClientEvent : Type 0 where
  written : List ℕ → ClientEvent
  dropped : ℕ → ClientEvent
  reads : ℕ → ClientEvent

abbrev pub produced : List ClientEvent → List ℕ
produced [] = []
produced (written chunk ∷ es) = chunk ++ produced es
produced (_ ∷ es) = produced es

-- The stream, the session and what the client has read.
pub follow : Stream → Session → List ClientEvent → Stream × Session × List ℕ
follow r s [] = (r, s, [])
follow r s (written chunk ∷ es) = follow r (publish chunk s) es
follow r s (dropped c ∷ es) = follow r (lost_upstream c s) es
follow r s (reads n ∷ es) =
    let (r', s', result) = read n r s in
    let (r'', s'', got) = follow r' s' es in (r'', s'', received result ++ got)

read_from-owed :
    (n : ℕ) (c : List ℕ) (q : List (List ℕ)) (b : Bool)
    → let (c', q', result) = read_from n c q b in
      received result ++ (c' ++ joined q') ≡ c ++ joined q
unfolding read_from
read_from-owed n (x ∷ c) q b =
    sym (append_assoc (take n (x ∷ c)) (drop n (x ∷ c)) (joined q))
    ∙ ap (λ t. t ++ joined q) (take-append-drop n (x ∷ c))
read_from-owed n [] [] true = refl
read_from-owed n [] [] false = refl
read_from-owed n [] (k ∷ q) b = read_from-owed n k q b

-- A read hands out the front of what is owed.
read-owed :
    (n : ℕ) (r : Stream) (s : Session)
    → let (r', s', result) = read n r s in received result ++ owed r' s' ≡ owed r s
unfolding read
read-owed n r s = ground (
  arith,
  read_from-owed n r.current (s.channel r.attachment).queue (s.channel r.attachment).closed,
)

queue-publish :
    (i : ℕ) (s : Session) (chunk : List ℕ)
    → (publish chunk s).attached ≡ some i
    → ((publish chunk s).channel i).queue ≡ (s.channel i).queue ++ chunk ∷ []
unfolding publish
queue-publish i s chunk h = ground arith

-- A client that is cut off, or another client's, gets none of the output.
queue-publish_cut :
    (i : ℕ) (s : Session) (chunk : List ℕ)
    → (publish chunk s).attached ≢ some i
    → ((publish chunk s).channel i).queue ≡ (s.channel i).queue
unfolding publish
queue-publish_cut i s chunk h = ground arith

attached-publish :
    (i : ℕ) (s : Session) (chunk : List ℕ)
    → (publish chunk s).attached ≡ some i
    → s.attached ≡ some i
unfolding publish
attached-publish i s chunk h = ground arith

publish-owed :
    (r : Stream) (s : Session) (chunk : List ℕ)
    → (publish chunk s).attached ≡ some r.attachment
    → owed r (publish chunk s) ≡ owed r s ++ chunk
publish-owed r s chunk h =
    ap (λ q. r.current ++ joined q) (queue-publish r.attachment s chunk h)
    ∙ ap (◌++◌ r.current) (
        joined-append (s.channel r.attachment).queue (chunk ∷ [])
        ∙ ap (◌++◌ (joined (s.channel r.attachment).queue)) (append-nil chunk))
    ∙ sym (append_assoc r.current (joined (s.channel r.attachment).queue) chunk)

publish-owed_cut :
    (r : Stream) (s : Session) (chunk : List ℕ)
    → (publish chunk s).attached ≢ some r.attachment
    → owed r (publish chunk s) ≡ owed r s
publish-owed_cut r s chunk h =
    ap (λ q. r.current ++ joined q) (queue-publish_cut r.attachment s chunk h)

queue-lost_upstream :
    (i c : ℕ) (s : Session) → ((lost_upstream c s).channel i).queue ≡ (s.channel i).queue
unfolding lost_upstream
queue-lost_upstream i c s = ground arith

attached-lost_upstream : (c : ℕ) (s : Session) → (lost_upstream c s).attached ≡ none
unfolding lost_upstream
attached-lost_upstream c s = ground arith

read_keeps :
    (n : ℕ) (r : Stream) (s : Session)
    → ((read n r s).0.attachment ≡ r.attachment) × ((read n r s).1.attached ≡ s.attached)
unfolding read
read_keeps n r s = (refl, refl)

attached_cases : (o : Option ℕ) (i : ℕ) → (o ≡ some i) ⊎ (o ≢ some i)
attached_cases none i = inr (λ e. cc)
attached_cases (some j) i = ground arith

-- A client that is cut off reads what was owed to it at that moment, and nothing else.
follow_cut :
    (r : Stream) (s : Session) (es : List ClientEvent)
    → s.attached ≢ some r.attachment
    → let (r', s', got) = follow r s es in
      (got ++ owed r' s' ≡ owed r s) × (s'.attached ≢ some r'.attachment)
unfolding follow
follow_cut r s [] h = (refl, h)
follow_cut r s (written chunk ∷ es) h =
    let still : (publish chunk s).attached ≢ some r.attachment =
      λ e. h (attached-publish r.attachment s chunk e) in
    let (p, q) = follow_cut r (publish chunk s) es still in
    (p ∙ publish-owed_cut r s chunk still, q)
follow_cut r s (dropped c ∷ es) h =
    let (p, q) = follow_cut r (lost_upstream c s) es (ground (arith, attached-lost_upstream c s)) in
    (p ∙ ap (λ q. r.current ++ joined q) (queue-lost_upstream r.attachment c s), q)
follow_cut r s (reads n ∷ es) h =
    let r1 : Stream = (read n r s).0 in
    let s1 : Session = (read n r s).1 in
    let (p, q) = follow_cut r1 s1 es (ground (arith, read_keeps n r s)) in
    (
      append_assoc (received (read n r s).2) (follow r1 s1 es).2 _
          ∙ ap (◌++◌ (received (read n r s).2)) p
          ∙ read-owed n r s,
      q,
    )

-- What a client has read and is still owed, followed by a rest that is empty while it stays
-- attached, is all that was owed at first and all that was produced since.
abbrev pub Delivered : List ℕ → Stream × Session × List ℕ → Type 0
Delivered all (r', s', got) =
    (rest : List ℕ) × ((got ++ owed r' s') ++ rest ≡ all)
    × ((rest ≡ []) ⊎ (s'.attached ≢ some r'.attachment))

Delivered-cut :
    (r : Stream) (s : Session) (es : List ClientEvent) (all more : List ℕ)
    → s.attached ≢ some r.attachment
    → owed r s ++ more ≡ all
    → Delivered all (follow r s es)
Delivered-cut r s es all more h e =
    let (p, q) = follow_cut r s es h in (more, ap (λ t. t ++ more) p ∙ e, inr q)

follow-Delivered :
    (r : Stream) (s : Session) (es : List ClientEvent)
    → s.attached ≡ some r.attachment
    → Delivered (owed r s ++ produced es) (follow r s es)
unfolding follow
follow-Delivered r s [] h = ([], append-nil _ ∙ sym (append-nil _), inl refl)
follow-Delivered r s (written chunk ∷ es) h =
    elim (attached_cases (publish chunk s).attached r.attachment) [
      | inl still ↦
          subst (λ all. Delivered all (follow r (publish chunk s) es))
            (ap (λ t. t ++ produced es) (publish-owed r s chunk still)
              ∙ append_assoc (owed r s) chunk (produced es))
            (follow-Delivered r (publish chunk s) es still)
      | inr cut ↦
          Delivered-cut r (publish chunk s) es _ (chunk ++ produced es) cut
            (ap (λ t. t ++ (chunk ++ produced es)) (publish-owed_cut r s chunk cut))
    ]
follow-Delivered r s (dropped c ∷ es) h =
    Delivered-cut r (lost_upstream c s) es _ (produced es)
      (ground (arith, attached-lost_upstream c s))
      (ap (λ q. (r.current ++ joined q) ++ produced es) (queue-lost_upstream r.attachment c s))
follow-Delivered r s (reads n ∷ es) h =
    let r1 : Stream = (read n r s).0 in
    let s1 : Session = (read n r s).1 in
    let (rest, p, q) = follow-Delivered r1 s1 es (ground (arith, read_keeps n r s)) in
    let a : List ℕ = received (read n r s).2 in
    let (r', s', got) = follow r1 s1 es in
    (
      rest,
      ap (λ t. t ++ rest) (append_assoc a got (owed r' s'))
          ∙ append_assoc a (got ++ owed r' s') rest
          ∙ ap (◌++◌ a) p
          ∙ sym (append_assoc a (owed r1 s1) (produced es))
          ∙ ap (λ t. t ++ produced es) (read-owed n r s),
      q,
    )

attach_facts :
    (s : Session) (i : ℕ)
    → (attach s).1 ≡ stream i
    → ((attach s).0.attached ≡ some i) × (((attach s).0.channel i).queue ≡ history_queue s.history)
unfolding attach
attach_facts s i h = ground arith

joined-history_queue : (h : List ℕ) → joined (history_queue h) ≡ h
joined-history_queue [] = refl
joined-history_queue (b ∷ h) = append-nil (b ∷ h)

-- A stream has no gap: from an Attach that succeeds, a client that reads in any portions, while the
-- guest writes and the upstream may be lost, has read and is owed the retained history and all
-- output since, in order; the rest that it misses is empty as long as it stays attached.
pub attach-follow :
    (s : Session) (i : ℕ) (es : List ClientEvent)
    → (attach s).1 ≡ stream i
    → Delivered
        (s.history ++ produced es)
        (follow (record { attachment = i; current = []; closed = false }) (attach s).0 es)
attach-follow s i es h =
    let (a, q) = attach_facts s i h in
    subst
      (λ t.
        Delivered (t ++ produced es)
          (follow (record { attachment = i; current = []; closed = false }) (attach s).0 es))
      (ap joined q ∙ joined-history_queue s.history)
      (follow-Delivered (record { attachment = i; current = []; closed = false }) (attach s).0 es a)
