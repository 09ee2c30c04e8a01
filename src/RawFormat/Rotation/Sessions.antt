-- ===== src/RawFormat/Rotation/Sessions.antt =====
-- The rule for what holds throughout a session of a rotating writer.
use crypto_microstructure_ma.Prelude.{
  ℕ, zero, suc, ◌/◌, ◌≡◌, refl, sym, subst, inl, inr, Bool, true, false, Option, none, some, List,
  [], ◌∷◌, ◌++◌, map, Bool-cases, ltb, append_assoc, append-nil,
}
use crypto_microstructure_ma.RawFormat.{Bytes, RawRecord, bind}
use crypto_microstructure_ma.RawFormat.Files.{BlockWriter, flush_block, write_record}
use crypto_microstructure_ma.RawFormat.Files.RoundTrip.{Given, bind-Given}
use crypto_microstructure_ma.RawFormat.Rotation.{
  FileName, exists, candidate, free_name, RawEventWriter, new_writer, open_at, segment_path,
  open_segment, close_with, count_written, Write, stamp_of, close_open, close_segment, rotate_if,
  segment_if, segment_for, write_event, write_events, record_session,
}

pub bind-some-Given {ℓ κ} :
    {A : Type ℓ} {B : Type κ} (Q : B → Type 0) (f : A → Option B) (o : Option A)
    → ((a : A) → o ≡ some a → Given Q (f a))
    → Given Q (bind o f)
bind-some-Given Q f none k = tt
bind-some-Given Q f (some a) k = k a refl

-- The name that the loop finds is not taken.
pub free_name-fresh :
    (left seconds attempt : ℕ) (names : List FileName)
    → Given (λ name. exists name names ≡ false) (free_name left seconds attempt names)
unfolding free_name
free_name-fresh zero seconds attempt names =
    elim (Bool-cases (exists (candidate seconds attempt) names)) [
      | inl e ↦ rw e tt
      | inr e ↦ rw e e
    ]
free_name-fresh (suc left) seconds attempt names =
    elim (Bool-cases (exists (candidate seconds attempt) names)) [
      | inl e ↦ rw e (free_name-fresh left seconds (suc attempt) names)
      | inr e ↦ rw e e
    ]

-- `K` says, for an open or a closed segment, what holds after the writes of some records.
module _ (compress : Bytes → Option Bytes) (interval target : ℕ)
    (K : Bool → List RawRecord → RawEventWriter → Type 0)
    (state : (b : Bool) (rs : List RawRecord) (w : RawEventWriter) → K b rs w → w.is_open ≡ b)
    (opens : (bucket stamp : ℕ) (rs : List RawRecord) (w : RawEventWriter) (path : FileName)
      → K false rs w
      → exists path w.names ≡ false
      → K true rs (open_at bucket stamp w path))
    (closes : (rs : List RawRecord) (w : RawEventWriter) (flushed : BlockWriter)
      → K true rs w
      → flush_block compress w.writer ≡ some flushed
      → K false rs (close_with w flushed))
    (writes : (r : RawRecord) (stamp : ℕ) (rs : List RawRecord) (w : RawEventWriter)
        (written : BlockWriter)
      → K true rs w
      → write_record compress target r w.writer ≡ some written
      → K true (rs ++ r ∷ []) (count_written r stamp w written)) where
  abbrev Either : List RawRecord → RawEventWriter → Type 0
  Either rs w = (is_open : Bool) × K is_open rs w

  open_segment_lem :
      (bucket stamp : ℕ) (rs : List RawRecord) (w : RawEventWriter)
      → K false rs w
      → Given (K true rs) (open_segment interval bucket stamp w)
  open_segment_lem bucket stamp rs w k =
      bind-Given (λ path. exists path w.names ≡ false) (K true rs)
        (λ path. some (open_at bucket stamp w path)) (segment_path interval bucket w.names)
        (free_name-fresh 1000 _ 0 w.names) (λ path. opens bucket stamp rs w path k)

  close_segment_lem :
      (rs : List RawRecord) (w : RawEventWriter)
      → Either rs w
      → Given (K false rs) (close_segment compress w)
  close_segment_lem rs w (false, k) =
      subst (λ b. Given (K false rs) (close_open compress b w)) (sym (state false rs w k)) k
  close_segment_lem rs w (true, k) =
      subst (λ b. Given (K false rs) (close_open compress b w)) (sym (state true rs w k))
        (bind-some-Given (K false rs) (λ flushed. some (close_with w flushed))
          (flush_block compress w.writer) (λ flushed. closes rs w flushed k))

  rotate_if_lem :
      (later : Bool) (bucket stamp : ℕ) (rs : List RawRecord) (w : RawEventWriter)
      → K true rs w
      → Given (K true rs) (rotate_if compress later interval bucket stamp w)
  rotate_if_lem false bucket stamp rs w k = k
  rotate_if_lem true bucket stamp rs w k =
      bind-Given (K false rs) (K true rs) (open_segment interval bucket stamp)
        (close_segment compress w) (close_segment_lem rs w (true, k))
        (open_segment_lem bucket stamp rs)

  segment_for_lem :
      (stamp : ℕ) (rs : List RawRecord) (w : RawEventWriter)
      → Either rs w
      → Given (K true rs) (segment_for compress interval stamp w)
  segment_for_lem stamp rs w (false, k) =
      subst (λ b. Given (K true rs) (segment_if compress b interval (stamp / interval) stamp w))
        (sym (state false rs w k)) (open_segment_lem (stamp / interval) stamp rs w k)
  segment_for_lem stamp rs w (true, k) =
      subst (λ b. Given (K true rs) (segment_if compress b interval (stamp / interval) stamp w))
        (sym (state true rs w k))
        (rotate_if_lem (ltb w.current_bucket (stamp / interval)) (stamp / interval) stamp rs w k)

  write_event_lem :
      (event : Write) (rs : List RawRecord) (w : RawEventWriter)
      → Either rs w
      → Given (Either (rs ++ event.0 ∷ [])) (write_event compress interval target event w)
  unfolding write_event
  write_event_lem (r, now) rs w k =
      bind-Given (K true rs) (Either (rs ++ r ∷ [])) _ _
        (segment_for_lem (stamp_of (r, now)) rs w k)
        (λ v l.
          bind-some-Given (Either (rs ++ r ∷ [])) _ (write_record compress target r v.writer)
            (λ written e. (true, writes r (stamp_of (r, now)) rs v written l e)))

  write_events_lem :
      (events : List Write) (rs : List RawRecord) (w : RawEventWriter)
      → Either rs w
      → Given
          (Either (rs ++ map (λ event. event.0) events))
          (write_events compress interval target events w)
  unfolding write_events
  write_events_lem [] rs w k = subst (λ ts. Either ts w) (sym (append-nil rs)) k
  write_events_lem (event ∷ events) rs w k =
      let written : List RawRecord = map (λ event. event.0) events in
      bind-Given (Either (rs ++ event.0 ∷ [])) (Either (rs ++ (event.0 ∷ written)))
        (write_events compress interval target events)
        (write_event compress interval target event w) (write_event_lem event rs w k)
        (λ v l.
          subst (λ ts. Given (Either ts) (write_events compress interval target events v))
            (append_assoc rs (event.0 ∷ []) written)
            (write_events_lem events (rs ++ event.0 ∷ []) v l))

  -- What holds of a new writer holds of its session's end.
  pub session_lem :
      (names : List FileName) (events : List Write) (w : RawEventWriter)
      → K false [] (new_writer names)
      → record_session compress interval target names events ≡ some w
      → K false (map (λ event. event.0) events) w
  unfolding record_session
  session_lem names events w start e =
      let rs : List RawRecord = map (λ event. event.0) events in
      subst (Given (K false rs)) e (
        bind-Given (Either rs) (K false rs) (close_segment compress)
          (write_events compress interval target events (new_writer names))
          (write_events_lem events [] (new_writer names) (false, start)) (close_segment_lem rs))
