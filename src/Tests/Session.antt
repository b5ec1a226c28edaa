-- ===== src/Tests/Session.antt =====
-- The property of a session, on one that lists the files and leaves.
use cloudmer_cloud_storage.Prelude.{◌≡◌, false, arith, List, [], ◌∷◌, Bytes}
use cloudmer_cloud_storage.Server.Dispatch.{serve}
use cloudmer_cloud_storage.Server.Dispatch.Finite.{next_message, cut_off, serve-ends}
use cloudmer_cloud_storage.Tests.Codec.{plain}
use cloudmer_cloud_storage.Tests.Storage.{server, env, now}

abbrev messages : List Bytes
messages = plain.encode "FLST~All" ∷ plain.encode "LOGN~alice~pw" ∷ plain.encode "EXIT" ∷ []

session_example : cut_off (serve env next_message (λ n. now) 4 messages "" server) ≡ false
session_example = serve-ends env (λ n. now) 4 messages "" server (omega arith)
