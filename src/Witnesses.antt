-- ===== src/Witnesses.antt =====
-- The theorems at concrete inputs: here those on the RPC client and server.
mod Edge
mod Links
mod Origin
mod H2
mod Quic
mod Serve
mod Register
mod Quick
mod Trials
mod Axum
use libcfd.Prelude.{
  [], ℕ, ◌≡◌, ◌≢◌, ◌≤◌, ◌<◌, ◌+◌, ◌*◌, refl, List, ◌∷◌, none, some, ok, err, arith, Bytes, length,
  replicate,
}
use libcfd.Prelude.Int.{pos}
use libcfd.Rpc.Error.{RpcResult, eof}
use libcfd.Rpc.Io.{
  Stream, chunk, read_message, read_exact, read_table, read_sizes, add_words, wrote, write_all,
  maximum_total_words,
}
use libcfd.Rpc.Io.Frame.{frame, IsFrameable, sum}
use libcfd.Rpc.Io.Chunks.{read_exact-content}
use libcfd.Rpc.Io.Limits.{read_message-bounds}
use libcfd.Rpc.Io.Write.{Took, write_all-Took}
use libcfd.Rpc.Client.{new, Received, return, results, sender_hosted, close}
use libcfd.Rpc.Client.Monitor.{
  Use, boot, invoke, fresh, use_client, Agrees, watch_close, use_client-close,
}
use libcfd.Rpc.Server.{
  CloudflaredHandler, Frame, bootstrap, call, finish, serve_cloudflared,
  default_register_udp_session,
}
use libcfd.Rpc.Io.Cut.{read_message-cut}
use libcfd.Rpc.Io.{Segments}
use libcfd.Rpc.Server.Wire.{Framed, read_all, bytes_of, asks, serve_cloudflared-read_all}
use libcfd.Rpc.Server.Replies.{Answers, questions, serve_cloudflared-Answers}

-- A message of one word in two chunks.
abbrev first_chunk : Bytes
first_chunk = 0 ∷ 0 ∷ 0 ∷ 0 ∷ 1 ∷ []

abbrev second_chunk : Bytes
second_chunk = 0 ∷ 0 ∷ 0 ∷ 7 ∷ 7 ∷ 7 ∷ 7 ∷ 7 ∷ 7 ∷ 7 ∷ 7 ∷ 9 ∷ []

abbrev chunks : Stream
chunks = chunk first_chunk ∷ chunk second_chunk ∷ []

one_word : IsFrameable 1 [] (replicate 8 7)
one_word = record { few = omega arith; small = omega arith; whole = refl }

accepted_message :
    read_message chunks
    ≡ ok (record { lengths = 1 ∷ []; words = replicate 8 7 }, chunk (9 ∷ []) ∷ [])
unfolding read_message read_exact add_words read_table read_sizes
accepted_message = refl

read_message-bounds_example :
    (0 < 1) × (1 ≤ 512) × (sum (1 ∷ []) ≤ maximum_total_words) × (8 ≡ sum (1 ∷ []) * 8)
read_message-bounds_example = read_message-bounds chunks accepted_message

-- The first chunk alone lacks eleven bytes of the message.
read_message-cut_example : read_message (chunk first_chunk ∷ []) ≡ err eof
read_message-cut_example =
    read_message-cut 1 [] (replicate 8 7) (0 ∷ 0 ∷ 0 ∷ replicate 8 7) (chunk first_chunk ∷ [])
      one_word (omega arith, tt) (unfold frame in refl) (omega arith)

-- The edge answers the bootstrap and one call.
inbox : List (RpcResult (Received ℕ))
inbox = ok (return 0 (ok (results 0 (sender_hosted ∷ [])))) ∷ ok (return 1 (ok (results 5 []))) ∷ []

-- A call whose parameters fail stands between them.
uses : List (Use ℕ ℕ ℕ)
uses = boot ∷ invoke 0 3 1 (err eof) (λ n. ok n) ∷ invoke 0 3 0 (ok 8) (λ n. ok n) ∷ []

use_client-close_example :
    let (p, c) = use_client (some fresh) (new {P = ℕ} [] inbox) uses in
    Agrees p c × (watch_close p c ≢ none)
use_client-close_example = use_client-close [] inbox uses

handler : CloudflaredHandler ℕ
handler = record {
  update_configuration =
      λ s version configuration. (record { latest_applied_version = version; error = "" }, s + 1);
  register_udp_session = default_register_udp_session;
}

calls : List (RpcResult Frame)
calls =
    ok (bootstrap 4)
    ∷ ok (
        call 5 0xb48e_dfbd_aa25_db04 0
          (record { version_and_config = ok (pos 2, []); session_destination = err eof }))
    ∷ ok (finish 4)
    ∷ []

serve_cloudflared-Answers_example :
    let served = serve_cloudflared handler calls [] 0 in
    Answers served.result served.replies (questions calls)
serve_cloudflared-Answers_example = serve_cloudflared-Answers handler calls [] 0

-- The message of one word is a bootstrap with question 4; a byte of the next message follows it.
abbrev root : Segments → RpcResult Frame
root m = ok (bootstrap 4)

abbrev whole_messages : List (Framed root)
whole_messages =
    record {
      first = 1;
      others = [];
      words = replicate 8 7;
      body = bootstrap 4;
      framed = one_word;
      reads = refl;
    }
    ∷ []

abbrev cut_stream : Stream
cut_stream = chunk first_chunk ∷ chunk (0 ∷ 0 ∷ 0 ∷ 7 ∷ 7 ∷ 7 ∷ 7 ∷ 7 ∷ 7 ∷ 7 ∷ 7 ∷ 0 ∷ []) ∷ []

serve_cloudflared-read_all_example :
    let served = serve_cloudflared handler (read_all root 2 cut_stream) [] 0 in
    Answers served.result served.replies (asks root whole_messages)
serve_cloudflared-read_all_example =
    serve_cloudflared-read_all root 1 [] (replicate 8 7) (0 ∷ [])
      (0 ∷ 0 ∷ 0 ∷ 1 ∷ 0 ∷ 0 ∷ 0 ∷ replicate 8 7) one_word (unfold frame in refl) (omega arith)
      handler whole_messages 2 cut_stream [] 0 (omega arith, (omega arith, tt))
      (unfold bytes_of frame in refl) (omega arith)
