-- ===== src/Daemon/Broadcaster.antt =====
-- feeder/feeder/broadcaster.go: the messages of a batch. Signing, gas and the gRPC client are left
-- out.
pub mod Batch
use vertix.Base.{Option, none, some, List, [], ◌∷◌}
use vertix.Base.Bytes.{Bytes, text}
use vertix.Base.Int.{ℤ}
use vertix.Base.Results.{Result, ok, ◌>>=◌, ◌>>◌}
use vertix.Sdk.{Sdk}
use vertix.Oracle.Types.{OracleError, MsgSubmitFeed, basic_submit_feed}

pub record FeedSubmission : Type 0 where
  pub pair : Bytes
  pub price : Option ℤ

-- `String` of a decimal, also of one that holds no number.
abbrev pub print_price : Sdk → Option ℤ → Bytes
print_price sdk none = text "<nil>"
print_price sdk (some d) = sdk.print_dec d

abbrev pub to_msg : Sdk → Bytes → Bytes → FeedSubmission → MsgSubmitFeed
to_msg sdk feeder validator f = record {
  feeder = feeder;
  validator = validator;
  pair = f.pair;
  price = print_price sdk f.price;
}

unfoldable pub build_msgs :
    Sdk → Bytes → Bytes → List FeedSubmission → Result OracleError (List MsgSubmitFeed)
build_msgs sdk feeder validator [] = ok []
build_msgs sdk feeder validator (f ∷ fs) = do
  basic_submit_feed sdk (to_msg sdk feeder validator f)
  rest ← build_msgs sdk feeder validator fs
  ok (to_msg sdk feeder validator f ∷ rest)
