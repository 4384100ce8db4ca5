-- ===== src/Hub/Auth.antt =====
-- mesh-hub/src/auth.rs: the challenge that a client signs to show that a DID is its own. The random
-- id and nonce are arguments, as is the time.
use mars_protocol.Common.{ℕ, ◌*◌, Bool, leb, Result, Text, Bytes, codes, add_u64}
use mars_protocol.Core.External.{External, Value, integer, bytes, text, table, end, entry}
use mars_protocol.Core.Error.{MeshError}
use mars_protocol.Core.Identity.{Identity, verify}

-- 5 minutes in microseconds
abbrev pub challenge_ttl_micros : ℕ
challenge_ttl_micros = 5 * 60 * 1000000

pub record DidAuthChallenge : Type 0 where
  pub id : Text
  pub nonce : Bytes
  pub hub_did : Text
  pub action : Text
  pub issued_at : ℕ
  pub expiry : ℕ

-- `DIDAuthChallenge::new`
unfoldable pub new_challenge : Text → Bytes → Text → Text → ℕ → DidAuthChallenge
new_challenge id nonce hub_did action now = record {
  id = id;
  nonce = nonce;
  hub_did = hub_did;
  action = action;
  issued_at = now;
  expiry = add_u64 now challenge_ttl_micros;
}

-- the map that is signed, in its order of keys
unfoldable pub signable_value : DidAuthChallenge → Value
signable_value c = table (
    entry (text (codes "nonce")) (bytes c.nonce) (
      entry (text (codes "action")) (text c.action) (
        entry (text (codes "hub_did")) (text c.hub_did)
          (entry (text (codes "issued_at")) (integer c.issued_at) end))))

module _ (x : External) where
  unfoldable pub to_signable_bytes : DidAuthChallenge → Bytes
  unfolding signable_value
  to_signable_bytes c = x.write_cbor (signable_value c)

  -- the error is shown in a text, here the error itself
  unfoldable pub verify_challenge :
      DidAuthChallenge → Identity → Bytes → Result MeshError (Unit {0})
  verify_challenge c identity signature = verify x identity (to_signable_bytes c) signature

unfoldable pub is_expired : DidAuthChallenge → ℕ → Bool
is_expired c now_micros = leb c.expiry now_micros
