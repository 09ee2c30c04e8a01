-- ===== src/RawFormat/Rotation/Names.antt =====
-- The names of a rotating writer's files.
use crypto_microstructure_ma.Prelude.{
  ◌≡◌, refl, sym, ap, ◌∙◌, subst, Bool, true, false, Option, some, List, [], ◌∷◌, ◌++◌, ℕ,
}
use crypto_microstructure_ma.RawFormat.{Bytes, RawRecord}
use crypto_microstructure_ma.RawFormat.Rotation.{
  FileName, exists, ClosedRawFile, RawEventWriter, Write, record_session,
}
use crypto_microstructure_ma.RawFormat.Rotation.Sessions.{session_lem}

-- No name is there twice.
abbrev pub IsDistinct : List FileName → Type 0
IsDistinct [] = Unit
IsDistinct (name ∷ names) = exists name names ≡ false × IsDistinct names

-- The files' names, the last one first, before those that were there.
abbrev pub names_of : List ClosedRawFile → List FileName → List FileName
names_of [] names = names
names_of (file ∷ files) names = names_of files (file.path ∷ names)

names_of-snoc :
    (files : List ClosedRawFile) (file : ClosedRawFile) (names : List FileName)
    → names_of (files ++ file ∷ []) names ≡ file.path ∷ names_of files names
names_of-snoc [] file names = refl
names_of-snoc (f ∷ files) file names = names_of-snoc files file (f.path ∷ names)

module _ (names : List FileName) where
  abbrev Named : Bool → RawEventWriter → Type 0
  Named true w = w.names ≡ w.current_path ∷ names_of w.closed_files names
  Named false w = w.names ≡ names_of w.closed_files names

  record Kept (is_open : Bool) (rs : List RawRecord) (w : RawEventWriter) : Type 0 where
    state : w.is_open ≡ is_open
    distinct : IsDistinct w.names
    named : Named is_open w

-- Where the names that a directory has are distinct, a session that raises no error gives each of
-- its files a name that no file of the directory and no earlier one of the session has, so it
-- overwrites none of them.
pub record_session-IsDistinct :
    (compress : Bytes → Option Bytes) (interval target : ℕ) (names : List FileName)
    (events : List Write) (w : RawEventWriter)
    → IsDistinct names
    → record_session compress interval target names events ≡ some w
    → IsDistinct (names_of w.closed_files names)
record_session-IsDistinct compress interval target names events w d e =
    let end =
      session_lem compress interval target (Kept names) (λ b rs w k. k.state)
        (λ bucket stamp rs w path k fresh. record {
          state = refl;
          distinct = (fresh, k.distinct);
          named = ap (λ ns. path ∷ ns) k.named;
        })
        (λ rs w flushed k done. record {
          state = refl;
          distinct = k.distinct;
          named = k.named ∙ sym (names_of-snoc w.closed_files _ names);
        })
        (λ r stamp rs w written k done. record {
          state = k.state;
          distinct = k.distinct;
          named = k.named;
        })
        names events w (record { state = refl; distinct = d; named = refl }) e in
    subst IsDistinct end.named end.distinct
