-- ===== src/Rpc/Server/Wire.antt =====
-- The server of the edge's calls over the bytes of its stream. `root` stands for Cap'n Proto's reading of
-- a message.
use libcfd.Prelude.{
  [], ℕ, zero, suc, ◌≡◌, ◌<◌, ap, ◌∙◌, subst, List, ◌∷◌, ◌++◌, Option, ok, err, length, arith,
  Bytes,
}
use libcfd.Rpc.Error.{RpcError, RpcResult}
use libcfd.Rpc.Io.{Segments, Stream, read_message}
use libcfd.Rpc.Io.Chunks.{content, IsSmooth}
use libcfd.Rpc.Io.Frame.{frame, IsFrameable}
use libcfd.Rpc.Io.RoundTrip.{read_message-frame}
use libcfd.Rpc.Io.Cut.{read_message-cut}
use libcfd.Rpc.Server.{CloudflaredHandler, Frame, serve_cloudflared}
use libcfd.Rpc.Server.Replies.{asked, questions, Answers, serve_cloudflared-Answers}

module _ (root : Segments → RpcResult Frame) where
  -- What the turns of the loop read: messages up to the first read or message that fails.
  abbrev after_root : RpcResult Frame → List (RpcResult Frame) → List (RpcResult Frame)
  after_root (ok f) later = ok f ∷ later
  after_root (err e) later = err e ∷ []

  abbrev after_message :
      (Stream → List (RpcResult Frame)) → RpcResult (Segments × Stream) → List (RpcResult Frame)
  after_message loop (ok (reader, s)) = after_root (root reader) (loop s)
  after_message loop (err e) = err e ∷ []

  unfoldable pub read_all : ℕ → Stream → List (RpcResult Frame)
  read_all zero s = []
  read_all (suc fuel) s = after_message (read_all fuel) (read_message s)

  -- A message of the edge, by its segments and what it reads as.
  pub record Framed : Type 0 where
    pub first : ℕ
    pub others : List ℕ
    pub words : Bytes
    pub body : Frame
    pub framed : IsFrameable first others words
    pub reads : root (record { lengths = first ∷ others; words = words }) ≡ ok body

  -- The bytes of the messages, with more behind them.
  unfoldable pub bytes_of : List Framed → Bytes → Bytes
  bytes_of [] tail = tail
  bytes_of (m ∷ messages) tail = frame m.first m.others m.words ++ bytes_of messages tail

  pub asks : List Framed → List ℕ
  asks [] = []
  asks (m ∷ messages) = asked m.body ++ asks messages

  module _ (first : ℕ) (others : List ℕ) (words tail missing : Bytes)
      (framed : IsFrameable first others words) (cut : tail ++ missing ≡ frame first others words)
      (short : 0 < length missing) where
    questions-read_all :
        (messages : List Framed) (fuel : ℕ) (s : Stream)
        → IsSmooth s
        → content s ≡ bytes_of messages tail
        → length messages < fuel
        → questions (read_all fuel s) ≡ asks messages
    unfolding read_all bytes_of asks
    questions-read_all messages zero s v e l = absurd (omega arith)
    questions-read_all [] (suc fuel) s v e l = rw (
        read_message-cut first others words missing s framed v (ap (λ b. b ++ missing) e ∙ cut)
          short)
    questions-read_all (m ∷ messages) (suc fuel) s v e l =
        let (s', r, v', left) =
          read_message-frame m.first m.others m.words (bytes_of messages tail) s m.framed v e in
        rw (r, m.reads)
          (ap (λ qs. asked m.body ++ qs)
            (questions-read_all messages fuel s' v' left (omega arith)))

    -- A stream of whole messages of the edge, cut at any byte of the next one and handed out in any
    -- chunks, is served as those messages: whatever the handler and the writes do, the replies answer
    -- the questions of the whole messages one each, in the order asked: all of them if the server ends
    -- well, a front part of them if it ends in an error.
    pub serve_cloudflared-read_all :
        {S : Type 0} (handler : CloudflaredHandler S) (messages : List Framed) (fuel : ℕ)
        (s : Stream) (writes : List (Option RpcError)) (state : S)
        → IsSmooth s
        → content s ≡ bytes_of messages tail
        → length messages < fuel
        → let served = serve_cloudflared handler (read_all fuel s) writes state in
          Answers served.result served.replies (asks messages)
    serve_cloudflared-read_all handler messages fuel s writes state v e l =
        let served = serve_cloudflared handler (read_all fuel s) writes state in
        subst (Answers served.result served.replies) (questions-read_all messages fuel s v e l)
          (serve_cloudflared-Answers handler (read_all fuel s) writes state)
