-- ===== src/Udap/Actions.antt =====
-- The actions that the client's operations are made of: an action on the client may fail with an error,
-- and what it has changed stays changed.
use go_udap.Prelude.{ℕ, Option, none, some, Result, ok, err}
use go_udap.Prelude.Bytes.{Bytes}
use go_udap.Prelude.Dict.{Dict, copy}
use go_udap.Udap.GetData.{GetDataError}
use go_udap.Udap.Discovery.{Device}
use go_udap.Udap.Transport.{SendError, RecvError}
use go_udap.Udap.Client.{Client, write_device}
use go_udap.Udap.Client.Packets.{BuildError, Built}

pub data OpError : Type 0 where
  build_failed : BuildError → OpError
  send_failed : SendError → OpError
  recv_failed : RecvError → OpError
  decode_failed : GetDataError → OpError
  device_error : Option Bytes → OpError
  rejected_credentials : OpError
  unexpected_method : ℕ → OpError
  missing_uuid : OpError
  out_of_fuel : OpError

abbrev pub Op : Type 0 → Type 0 → Type 0
Op S A = Client S → Result OpError A × Client S

module _ {S A : Type 0} where
  abbrev pub pure : A → Op S A
  pure a c = (ok a, c)

  abbrev pub lift : Result OpError A → Op S A
  lift r c = (r, c)

module _ {S A B : Type 0} where
  abbrev pub continue : (A → Op S B) → Result OpError A × Client S → Result OpError B × Client S
  continue f (ok a, c) = f a c
  continue f (err e, c) = (err e, c)

  infixl 5 ◌>>=◌ ◌>>◌
  abbrev pub ◌>>=◌ : Op S A → (A → Op S B) → Op S B
  ◌>>=◌ m f c = continue f (m c)

  abbrev pub ◌>>◌ : Op S A → Op S B → Op S B
  ◌>>◌ m n c = continue (λ _. n) (m c)

abbrev pub built : {S : Type 0} → Client S → Built → Result OpError Bytes × Client S
built c (ok bytes, seq) = (ok bytes, record c { sequence = seq })
built c (err e, seq) = (err (build_failed e), record c { sequence = seq })

-- A `Create…Packet` call.
unfoldable pub build : {S : Type 0} → (ℕ → Built) → Op S Bytes
build make c = built c (make c.sequence)

module _ {S : Type 0} where
  -- Fields of the device at an address, and its `Parameters`.
  unfoldable pub device_at : ℕ → Op S Device
  device_at a c = (ok (c.heap a), c)

  unfoldable pub set_parameters : ℕ → Dict Bytes → Op S (Unit {0})
  set_parameters a params c = (ok tt, write_device a (record (c.heap a) { parameters = params }) c)

  -- The caller's values go over the cached ones.
  unfoldable pub commit_config : ℕ → Dict Bytes → Op S (Unit {0})
  unfolding device_at set_parameters
  commit_config a config = do device ← device_at a; set_parameters a (copy device.parameters config)

abbrev pub sent : {S : Type 0} → Option SendError × Client S → Result OpError (Unit {0}) × Client S
sent (none, c) = (ok tt, c)
sent (some e, c) = (err (send_failed e), c)
