-- ===== src/Journal/Eligibility/Writes.antt =====
-- When a sequencer returns a record, and what it does after an error.
use persea_terminal.Base.{
  ℕ, ◌≡◌, refl, sym, ap, ◌∙◌, inl, inr, Bool, true, false, Option, none, some, List, if◌then◌else◌,
  Bool-cases, subst,
}
use persea_terminal.Journal.Eligibility.{
  WriteAhead, FeedFunc, Sequencer, WriteError, Written, returns, fails, write_invalidated, if_ok,
  record_if, with_record, write_through, settled, write_configured, write_record,
}

if_ok-true :
    {S : Type 0} (x : Bool × S) (call : S → Bool × S) (s' : S)
    → if_ok x call ≡ (true, s')
    → (s : S) × (x ≡ (true, s)) × (call s ≡ (true, s'))
if_ok-true (false, s) call s' h = cc
if_ok-true (true, s) call s' h = (s, refl, h)

record_if-some :
    {S R : Type 0} (r r' : R) (x : Bool × S) (s' : S)
    → record_if r x ≡ (some r', s')
    → (r ≡ r') × (x ≡ (true, s'))
record_if-some r r' (true, s) s' h = (cc, cc)
record_if-some r r' (false, s) s' h = cc

with_record-some :
    {S R : Type 0} (x : Option R × S) (calls : R → S → Bool × S) (r : R) (s' : S)
    → with_record x calls ≡ (some r, s')
    → (s : S) × (x ≡ (some r, s)) × (calls r s ≡ (true, s'))
with_record-some (none, s) calls r s' h = cc
with_record-some {S = S} {R = R} (some r', s) calls r s' h =
    let (same, ok) = record_if-some r' r (calls r' s) s' h in
    (s, ap (λ (x : R). (some x, s)) same, subst (λ (x : R). calls x s ≡ (true, s')) same ok)

fails_ne_returns : {R : Type 0} (e : WriteError) (r : R) → fails e ≡ returns r → ⊥
fails_ne_returns e r h = cc

module _ {S K R : Type 0} where
  -- The four calls of a write that succeeds, each on the state that the last one left.
  pub record Succeeds (q : Sequencer S K R) (s : S) (key : K) (payload : List ℕ) (r : R) (s' : S)
      : Type 0 where
    pub sink : WriteAhead S K R
    pub feed : FeedFunc S K R
    pub appended : S
    pub synced : S
    pub advanced : S
    pub has_sink : q.sink ≡ some sink
    pub has_feed : q.feed ≡ some feed
    pub appends : sink.append s key payload ≡ (some r, appended)
    pub syncs : sink.sync appended key ≡ (true, synced)
    pub advances : sink.advance_committed synced key r ≡ (true, advanced)
    pub feeds : feed advanced key r payload ≡ (true, s')

  settled-returns :
      (q q' : Sequencer S K R) (x : Option R × S) (r : R) (s' : S)
      → settled q x ≡ (returns r, q', s')
      → (x ≡ (some r, s')) × (q ≡ q')
  settled-returns q q' (none, s) r s' h = cc
  settled-returns q q' (some r', s) r s' h = (cc, cc)

  write_configured-Succeeds :
      (q q' : Sequencer S K R) (sink : Option (WriteAhead S K R)) (feed : Option (FeedFunc S K R))
      (s s' : S) (key : K) (payload : List ℕ) (r : R)
      → q.sink ≡ sink
      → q.feed ≡ feed
      → write_configured q sink feed s key payload ≡ (returns r, q', s')
      → Succeeds q s key payload r s' × (q ≡ q')
  unfolding write_through
  write_configured-Succeeds q q' none feed s s' key payload r hs hf h = cc
  write_configured-Succeeds q q' (some sink) none s s' key payload r hs hf h = cc
  write_configured-Succeeds q q' (some sink) (some feed) s s' key payload r hs hf h =
      let (through, same) = settled-returns q q' (write_through sink feed s key payload) r s' h in
      let (s1, appends, rest) =
        with_record-some (sink.append s key payload)
          (λ r0 s0.
            if_ok (if_ok (sink.sync s0 key) (λ s00. sink.advance_committed s00 key r0))
              (λ s00. feed s00 key r0 payload))
          r s' through in
      let (s3, kept, feeds) =
        if_ok-true (if_ok (sink.sync s1 key) (λ s00. sink.advance_committed s00 key r))
          (λ s00. feed s00 key r payload) s' rest in
      let (s2, syncs, advances) =
        if_ok-true (sink.sync s1 key) (λ s00. sink.advance_committed s00 key r) s3 kept in
      (
        record {
          sink = sink;
          feed = feed;
          appended = s1;
          synced = s2;
          advanced = s3;
          has_sink = hs;
          has_feed = hf;
          appends = appends;
          syncs = syncs;
          advances = advances;
          feeds = feeds;
        },
        same,
      )

  -- A write that returns a record was made by a sequencer that had not failed, and it leaves it as it
  -- was: the sink appended the payload as this record, synced, and advanced over the record, and then
  -- the feed took the record and the payload, in this order and each without an error.
  pub write_record-Succeeds :
      (q q' : Sequencer S K R) (s s' : S) (key : K) (payload : List ℕ) (r : R)
      → write_record q s key payload ≡ (returns r, q', s')
      → (q.failed ≡ false) × Succeeds q s key payload r s' × (q ≡ q')
  unfolding write_record
  write_record-Succeeds q q' s s' key payload r h = elim (Bool-cases q.failed) [
    | inl broken ↦ absurd (
        fails_ne_returns write_invalidated r (
          ap (λ (t : Written R × Sequencer S K R × S). t.0)
            (ap (choice q s key payload) (sym broken) ∙ h)))
    | inr sound ↦
        let (succeeds, same) =
          write_configured-Succeeds q q' q.sink q.feed s s' key payload r refl refl
            (ap (choice q s key payload) (sym sound) ∙ h) in
        (sound, succeeds, same)
  ]
    where
      choice : Sequencer S K R → S → K → List ℕ → Bool → Written R × Sequencer S K R × S
      choice q s key payload b =
          if b
          then (fails write_invalidated, q, s)
          else write_configured q q.sink q.feed s key payload

  -- A sequencer that failed refuses every write and calls nothing.
  write_record-failed :
      (q : Sequencer S K R) (s : S) (key : K) (payload : List ℕ)
      → q.failed ≡ true
      → write_record q s key payload ≡ (fails write_invalidated, q, s)
  unfolding write_record
  write_record-failed q s key payload h =
      ap
        (λ (b : Bool).
          if b
          then (fails write_invalidated, q, s)
          else write_configured q q.sink q.feed s key payload)
        h
