-- ===== src/Rtp/Dtmf/Receiving/Event.antt =====
-- The segments of one event in `parse_telephone_event`, and its callbacks.
use mathlib.Core.Path.{subst}
use rfcvoip.Prelude.{
  ℕ, ◌+◌, ◌%◌, ◌^◌, ◌≤◌, ◌<◌, max, ◌≡◌, refl, sym, ap, ◌∙◌, Bool, true, false, ◌&&◌, ◌||◌, not,
  Option, some, List, [], ◌∷◌, ◌++◌, drop, drop-nil, All, All-append, All-drop, ◌==◌, if◌then◌else◌,
  arith,
}
use rfcvoip.Rtp.Dtmf.Receiving.{
  Outcome, done, EventKey, same_key, find_segment, set_segment, has_key, Receiver, is_full_segment,
  preceding_key, call_back, update_found, update_event, start_event, report_event,
}
use rfcvoip.Rtp.Dtmf.Receiving.Payload.{SameEvents}
use rfcvoip.Rtp.Dtmf.Receiving.Heard.{
  find-set, has_key-append_last, has_key_none, IsKept, forget_oldest-IsKept,
}

times_differ :
    (start n o : ℕ) → o < n → n < 2 ^ 32 → ((start + n) % 2 ^ 32 == (start + o) % 2 ^ 32) ≡ false
times_differ start n o h small = ground arith

and_false : (b c : Bool) → (b && false && c) ≡ false
and_false true c = refl
and_false false c = refl

-- The receiver with a key added.
abbrev added : EventKey → ℕ → Bool → Receiver → Receiver
added k duration end r = record r {
  received = r.received ++ k ∷ [];
  order = r.order ++ k ∷ [];
  segments = set_segment k (duration, end) r.segments;
}

-- The first report of an event: it calls back unless it continues the segment before it.
start_event_lem :
    (k : EventKey) (event duration : ℕ) (end marker packed : Bool) (r : Receiver)
    → r.order ≡ r.received
    → All (λ j. same_key k j ≡ false) r.received
    → (r' : Receiver) × IsKept k r.received (added k duration end r) r'
      × (start_event k event duration end marker packed r
          ≡ done (
              if not (
                (not marker || packed)
                && is_full_segment (find_segment (preceding_key k) r.segments))
              then call_back event r'
              else r'))
start_event_lem k event duration end marker packed r eo h =
    let (r', kept) =
      forget_oldest-IsKept k r.received (added k duration end r) refl
        (ap (λ (o : List EventKey). o ++ k ∷ []) eo) h in
    (r', kept, rw kept.result)

-- A report to a listening receiver, by whether the key is known.
heard :
    (k : EventKey) (event d : ℕ) (e marker : Bool) (r : Receiver) (answer : Outcome Receiver)
    → r.listening ≡ true
    → has_key k r.received ≡ true
    → update_event k d e r ≡ answer
    → report_event (some event) k d e marker false r ≡ answer
heard k event d e marker r answer hl hk ha =
    let start = start_event k event d e marker false r in
    ap
      (λ (b : Bool).
        if not b then done r else if has_key k r.received then update_event k d e r else start)
      hl
    ∙ ap (λ (b : Bool). if b then update_event k d e r else start) hk
    ∙ ha

unheard :
    (k : EventKey) (event d : ℕ) (e marker : Bool) (r : Receiver) (answer : Outcome Receiver)
    → r.listening ≡ true
    → has_key k r.received ≡ false
    → start_event k event d e marker false r ≡ answer
    → report_event (some event) k d e marker false r ≡ answer
unheard k event d e marker r answer hl hk ha =
    let start = start_event k event d e marker false r in
    ap
      (λ (b : Bool).
        if not b then done r else if has_key k r.received then update_event k d e r else start)
      hl
    ∙ ap (λ (b : Bool). if b then update_event k d e r else start) hk
    ∙ ha

module _ (ssrc code start event : ℕ) where
  abbrev pub key_at : ℕ → EventKey
  key_at o = record { ssrc = ssrc; timestamp = (start + o) % 2 ^ 32; code = code }

  abbrev pub IsPast : ℕ → EventKey → Type 0
  IsPast c k = (o : ℕ) × (o ≤ c) × (k ≡ key_at o)

  -- The segment at offset `c` is the last one heard, with the duration `d` and the end flag `e`.
  pub record IsHeard (r : Receiver) (c d : ℕ) (e : Bool) : Type 0 where
    pub listening : r.listening ≡ true
    pub same_order : r.order ≡ r.received
    pub found : find_segment (key_at c) r.segments ≡ some (d, e)
    pub known : has_key (key_at c) r.received ≡ true
    pub past : All (IsPast c) r.received

  differs :
      (n c : ℕ) (k : EventKey) → c < n → n < 2 ^ 32 → IsPast c k → same_key (key_at n) k ≡ false
  differs n c k h small (o, le, e) = rw e (
      ap (λ (b : Bool). ssrc == ssrc && b && code == code)
        (times_differ start n o (omega (arith, h, le)) small)
      ∙ and_false (ssrc == ssrc) (code == code))

  all_differ :
      (n c : ℕ) (ks : List EventKey)
      → c < n
      → n < 2 ^ 32
      → All (IsPast c) ks
      → All (λ j. same_key (key_at n) j ≡ false) ks
  all_differ n c [] h small past = tt
  all_differ n c (k ∷ ks) h small (p, ps) = (differs n c k h small p, all_differ n c ks h small ps)

  later : (n c : ℕ) (ks : List EventKey) → c ≤ n → All (IsPast c) ks → All (IsPast n) ks
  later n c [] h past = tt
  later n c (k ∷ ks) h ((o, le, e), ps) = ((o, omega (arith, le, h), e), later n c ks h ps)

  timed : ℕ → EventKey
  timed t = record { ssrc = ssrc; timestamp = t; code = code }

  preceding : (c : ℕ) → preceding_key (key_at (c + 0xffff)) ≡ key_at c
  unfolding timed
  preceding c = ap timed (omega arith)

  -- Another report of the segment.
  pub again :
      (r : Receiver) (c d d' : ℕ) (e e' marker : Bool)
      → IsHeard r c d e
      → (r' : Receiver) × (report_event (some event) (key_at c) d' e' marker false r ≡ done r')
        × IsHeard r' c (max d' d) (e' || e)
        × (r'.digits ≡ r.digits)
  again r c d d' e e' marker h = (
    record r { segments = set_segment (key_at c) (max d' d, e' || e) r.segments },
    heard (key_at c) event d' e' marker r (update_event (key_at c) d' e' r) h.listening h.known refl
        ∙ ap (λ (o : Option (ℕ × Bool)). update_found o (key_at c) d' e' r) h.found,
    record {
      listening = h.listening;
      same_order = h.same_order;
      found = find-set (key_at c) (max d' d, e' || e) r.segments;
      known = h.known;
      past = h.past;
    },
    refl,
  )

  -- The first report of the segment that follows one of 65535 ticks without an end.
  pub next :
      (r : Receiver) (c d' : ℕ) (e' : Bool)
      → c + 0xffff < 2 ^ 32
      → IsHeard r c 0xffff false
      → (r' : Receiver) × (report_event (some event) (key_at (c + 0xffff)) d' e' false false r
          ≡ done r')
        × IsHeard r' (c + 0xffff) d' e'
        × (r'.digits ≡ r.digits)
  next r c d' e' small h =
      let n = c + 0xffff in
      let k = key_at n in
      let apart = all_differ n c r.received (omega arith) small h.past in
      let (r', kept, start) = start_event_lem k event d' e' false false r h.same_order apart in
      let continues : is_full_segment (find_segment (preceding_key k) r.segments) ≡ true =
        ap (λ (j : EventKey). is_full_segment (find_segment j r.segments)) (preceding c)
        ∙ ap is_full_segment h.found in
      (
        r',
        unheard k event d' e' false r (done r') h.listening (has_key_none k r.received apart) (
            start
            ∙ ap
                (λ (b : Bool).
                  done (if not ((not false || false) && b) then call_back event r' else r'))
                continues),
        record {
          listening = kept.listening ∙ h.listening;
          same_order = kept.order;
          found = kept.found ∙ find-set k (d', e') r.segments;
          known =
              ap (has_key k) kept.received ∙ has_key-append_last k (drop kept.dropped r.received);
          past =
              subst (λ ks. All (IsPast n) ks) (sym kept.received)
                (All-append (IsPast n) (drop kept.dropped r.received) (k ∷ [])
                  (All-drop (IsPast n) kept.dropped r.received
                    (later n c r.received (omega arith) h.past))
                  ((n, omega arith, refl), tt));
        },
        kept.digits,
      )

  -- The first report of all, to a receiver that knows no event.
  pub first :
      (r : Receiver) (d : ℕ) (e : Bool)
      → r.listening ≡ true
      → r.received ≡ []
      → r.order ≡ []
      → (r' : Receiver) × (report_event (some event) (key_at 0) d e true false r ≡ done r')
        × IsHeard r' 0 d e
        × (r'.digits ≡ r.digits ++ event ∷ [])
  first r d e listening none_known none_ordered =
      let k = key_at 0 in
      let apart = subst (λ ks. All (λ j. same_key k j ≡ false) ks) (sym none_known) tt in
      let (r', kept, start) =
        start_event_lem k event d e true false r (none_ordered ∙ sym none_known) apart in
      let received : r'.received ≡ k ∷ [] =
        kept.received
        ∙ ap (λ (ks : List EventKey). drop kept.dropped ks ++ k ∷ []) none_known
        ∙ ap (λ (ks : List EventKey). ks ++ k ∷ []) (drop-nil kept.dropped) in
      (
        call_back event r',
        unheard k event d e true r (done (call_back event r')) listening
            (has_key_none k r.received apart) start,
        record {
          listening = kept.listening ∙ listening;
          same_order = kept.order;
          found = kept.found ∙ find-set k (d, e) r.segments;
          known =
              ap (has_key k) kept.received ∙ has_key-append_last k (drop kept.dropped r.received);
          past = subst (λ ks. All (IsPast 0) ks) (sym received) ((0, omega arith, refl), tt);
        },
        ap (λ (ds : List ℕ). ds ++ event ∷ []) kept.digits,
      )

pub SameEvents-IsHeard :
    (ssrc code start event : ℕ) (r r1 : Receiver) (c d : ℕ) (e : Bool)
    → SameEvents r r1
    → IsHeard ssrc code start event r c d e
    → IsHeard ssrc code start event r1 c d e
SameEvents-IsHeard ssrc code start event r r1 c d e same h =
    let k = key_at ssrc code start event c in
    record {
      listening = same.listening ∙ h.listening;
      same_order = same.order ∙ (h.same_order ∙ sym same.received);
      found = ap (find_segment k) same.segments ∙ h.found;
      known = ap (has_key k) same.received ∙ h.known;
      past = subst (λ ks. All (IsPast ssrc code start event c) ks) (sym same.received) h.past;
    }
