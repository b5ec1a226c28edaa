-- ===== src/Server/Dispatch/Requests.antt =====
-- A request that is written as its parts with bars reaches its handler.
use Prim.Native.Char.{Char, code}
use cloudmer_cloud_storage.Prelude.{
  ◌≡◌, refl, sym, String, ◌<>◌, false, List, ◌∷◌, Bytes, length, Option, Result, ok, ◌==◌,
}
use cloudmer_cloud_storage.Text.{codes, split, join, first_chars}
use cloudmer_cloud_storage.Text.Split.{AllLack, split-join}
use cloudmer_cloud_storage.Text.Prefix.{begins_with_apart, first_chars_append}
use cloudmer_cloud_storage.Server.{Server, line}
use cloudmer_cloud_storage.Server.Uploads.{Inputs}
use cloudmer_cloud_storage.Server.Dispatch.{Env, route, handle_request, reported, login_owner}

pub split-line :
    (p : String) (ps : List String) → AllLack b'~' (p ∷ ps) → split b'~' (line (p ∷ ps)) ≡ p ∷ ps
split-line p ps lack = split-join "~" p ps lack

-- The code is what stands before the first bar.
pub first_chars-line :
    (code p : String) (ps : List String)
    → length (codes code) ≡ 4
    → first_chars 4 (line (code ∷ p ∷ ps)) ≡ code
unfolding join
first_chars-line code p ps four = first_chars_append code ("~" <> join "~" (p ∷ ps)) 4 (sym four)

module _ (env : Env) {S : Type 0} (recv : S → Result (Option Bytes) × S)
    (decode-encode : (s : String) → env.codecs.decode (env.codecs.encode s) ≡ ok s) where
  pub handle_request-line :
      (inputs : Inputs) (code p : String) (ps : List String) (sock : S) (owner : String)
      (st : Server)
      → AllLack b'~' (code ∷ p ∷ ps)
      → length (codes code) ≡ 4
      → handle_request env recv inputs (env.codecs.encode (line (code ∷ p ∷ ps))) sock owner st ≡ (
          let o = route env recv inputs code (code ∷ p ∷ ps) sock owner st in
          record o { turn = reported env.codecs o.turn })
  unfolding handle_request
  handle_request-line inputs code p ps sock owner st lack four =
      rw (decode-encode (line (code ∷ p ∷ ps)))
        (rw (split-line code (p ∷ ps) lack) (rw (first_chars-line code p ps four) refl))

  -- A request whose code does not start with L leaves the owner of the session.
  pub login_owner-line :
      (c : Char) (s p : String) (ps : List String) (owner : String)
      → (code c == b'L') ≡ false
      → login_owner (env.codecs.decode (env.codecs.encode (line (String.◌∷◌ c s ∷ p ∷ ps)))) owner
        ≡ owner
  unfolding join
  login_owner-line c s p ps owner other =
      rw (decode-encode (line (String.◌∷◌ c s ∷ p ∷ ps)))
        (rw (begins_with_apart c "L" s ("~" <> join "~" (p ∷ ps)) "OGN~" other) refl)
