-- ===== src/Binance/Agreement/Payloads.antt =====
-- Which records `EventReplayer::replay` (cpp/replay/event_replayer.cpp) has parser failures of.
use crypto_microstructure_ma.Prelude.{ℕ, ◌≡◌, refl, ◌∙◌, Bool, true, ◌&&◌, List, [], ◌∷◌, arith}
use crypto_microstructure_ma.Historical.Emission.{
  Emission, connection_open, connection_close, instrument_info, depth_snapshot, depth_update,
}
use crypto_microstructure_ma.Binance.Book.{BookOps}
use crypto_microstructure_ma.Binance.Replay.{Parser, Replayer, after_call, on_record, replay, start}
use crypto_microstructure_ma.Binance.Agreement.Relation.{HasRefused}

-- The parser takes the payload of a record, if it has one to parse.
abbrev pub takes : Parser → Emission → Bool
takes parser (depth_snapshot t m) = parser.takes_snapshot m
takes parser (depth_update u) = parser.takes_update u
takes parser (connection_open t) = true
takes parser (connection_close t) = true
takes parser (instrument_info t) = true

abbrev pub takes_all : Parser → List Emission → Bool
takes_all parser [] = true
takes_all parser (e ∷ es) = takes parser e && takes_all parser es

module _ {B : BookOps} where
  on_record-parser : (r : Replayer B) (e : Emission) → (on_record r e).parser ≡ r.parser
  unfolding on_record after_call
  on_record-parser r (connection_open t) = refl
  on_record-parser r (connection_close t) = refl
  on_record-parser r (instrument_info t) = refl
  on_record-parser r (depth_snapshot t m) = ground arith
  on_record-parser r (depth_update u) = ground arith

  on_record_taken :
      (r : Replayer B) (e : Emission)
      → takes r.parser e ≡ true
      → (on_record r e).parse_failures ≡ r.parse_failures
  unfolding on_record after_call
  on_record_taken r (connection_open t) h = refl
  on_record_taken r (connection_close t) h = refl
  on_record_taken r (instrument_info t) h = refl
  on_record_taken r (depth_snapshot t m) h = ground (arith, h)
  on_record_taken r (depth_update u) h = ground (arith, h)

  replay_taken :
      (parser : Parser) (r : Replayer B) (es : List Emission)
      → r.parser ≡ parser
      → takes_all parser es ≡ true
      → (replay r es).parse_failures ≡ r.parse_failures
  unfolding replay
  replay_taken parser r [] p h = refl
  replay_taken parser r (e ∷ es) p h =
      let first : takes r.parser e ≡ true = rw p (ground (arith, h)) in
      replay_taken parser (on_record r e) es (on_record-parser r e ∙ p) (ground (arith, h))
      ∙ on_record_taken r e first

-- Where the parser takes every payload, it is the order book that has refused.
pub taken-rejected :
    (B : BookOps) (parser : Parser) (limit : ℕ) (es : List Emission)
    → takes_all parser es ≡ true
    → HasRefused (replay (start B parser limit) es)
    → (replay (start B parser limit) es).rejected ≡ true
unfolding start
taken-rejected B parser limit es h refused =
    ground (arith, refused, replay_taken parser (start B parser limit) es refl h)
