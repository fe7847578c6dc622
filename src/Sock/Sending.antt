-- ===== src/Sock/Sending.antt =====
-- The user's bytes on their way into the send buffer: `consume_pending_data` of
-- udt/udt_socket.cpp.
use udt_boost.Base.{
  ℕ, ◌+◌, ◌≡◌, ◌<◌, refl, sym, ap, ◌∙◌, Bool, true, false, List, [], ◌∷◌, ◌++◌, arith, Bool-cases,
  inl, inr, none, length, ltb, leb, ◌&&◌, if◌then◌else◌, append-nil, append_assoc, u16_mod, add32,
  sub32,
}
use udt_boost.Packet.{hdr_size}
use udt_boost.Buf.{Buf, append}
use udt_boost.Buf.Accounting.{IsValid}
use udt_boost.Buf.Queue.{contents, append-Keeps}
use udt_boost.Sock.{Sock, SendOp, Effect, post_send, emit, consume_ops, consume_pending_data}

-- The bytes of the operations, and the calls of their handlers.
abbrev pub bytes_of : List SendOp → List ℕ
bytes_of [] = []
bytes_of (op ∷ ops) = op.buf ++ bytes_of ops

abbrev pub completed : List SendOp → List Effect
completed [] = []
completed (op ∷ ops) = post_send op.handler none (length op.buf) ∷ completed ops

-- The count of bytes, of 32 bits.
abbrev pub count_of : List SendOp → ℕ
count_of [] = 0
count_of (op ∷ ops) = add32 (count_of ops) (length op.buf)

-- The operation at the head, if there is one, finds no room in the buffer or is empty.
abbrev pub Refused : List SendOp → Buf → Type 0
Refused [] b = Unit {0}
Refused (op ∷ ops) b =
    (ltb 0 (length op.buf) && leb (length op.buf + length (contents b)) b.hiwat) ≡ false

-- Some operations are done, in their order, and the rest waits.
pub record Sends (ops : List SendOp) (s s' : Sock) (consumed : ℕ) : Type 0 where
  pub done : List SendOp
  pub split : ops ≡ done ++ s'.send_ops
  pub kept : IsValid s'.snd_buf
  pub bytes : contents s'.snd_buf ≡ contents s.snd_buf ++ bytes_of done
  pub told : s'.effects ≡ s.effects ++ completed done
  pub counted : consumed ≡ count_of done
  pub waits : Refused s'.send_ops s'.snd_buf
  pub hiwat : s'.snd_buf.hiwat ≡ s.snd_buf.hiwat

if_true {ℓ} : {A : Type ℓ} (b : Bool) (x y : A) → b ≡ true → (if b then x else y) ≡ x
if_true b x y e = rw e refl

hiwat-append : (bytes : List ℕ) (n : ℕ) (b : Buf) → (append bytes n b).0.hiwat ≡ b.hiwat
unfolding append
hiwat-append bytes n b = ground arith

no_room : (x y : Bool) (n : ℕ) → (x && y && ltb 0 n) ≡ false → 0 < n → (x && y) ≡ false
no_room x y n e h = ground arith

one_more :
    (op : SendOp) (ops : List SendOp) (s s1 s' : Sock) (n : ℕ)
    → contents s1.snd_buf ≡ contents s.snd_buf ++ op.buf
    → s1.effects ≡ s.effects ++ post_send op.handler none (length op.buf) ∷ []
    → s1.snd_buf.hiwat ≡ s.snd_buf.hiwat
    → Sends ops s1 s' n
    → Sends (op ∷ ops) s s' (add32 n (length op.buf))
one_more op ops s s1 s' n b e h r = record {
  done = op ∷ r.done;
  split = ap (λ xs. op ∷ xs) r.split;
  kept = r.kept;
  bytes =
      r.bytes
      ∙ ap (λ xs. xs ++ bytes_of r.done) b
      ∙ append_assoc (contents s.snd_buf) op.buf (bytes_of r.done);
  told =
      r.told
      ∙ ap (λ xs. xs ++ completed r.done) e
      ∙ append_assoc s.effects (post_send op.handler none (length op.buf) ∷ []) (completed r.done);
  counted = ap (λ k. add32 k (length op.buf)) r.counted;
  waits = r.waits;
  hiwat = r.hiwat ∙ h;
}

consume_ops-Sends :
    (ops : List SendOp) (s : Sock)
    → 0 < s.cb.maxseg
    → s.cb.maxseg + hdr_size < u16_mod
    → IsValid s.snd_buf
    → Sends ops s (consume_ops ops s).0 (consume_ops ops s).1
unfolding consume_ops
consume_ops-Sends [] s hm h q = record {
  done = [];
  split = refl;
  kept = q;
  bytes = sym (append-nil (contents s.snd_buf));
  told = sym (append-nil s.effects);
  counted = refl;
  waits = tt;
  hiwat = refl;
}
consume_ops-Sends (op ∷ ops) s hm h q =
    let (t, c, k, _) = append-Keeps op.buf s.cb.maxseg s.snd_buf h q in
    let (buf, taken) = append op.buf s.cb.maxseg s.snd_buf in
    let next : Sock =
      emit (post_send op.handler none (length op.buf)) (record s { snd_buf = buf }) in
    elim (Bool-cases taken) [
      | inl e ↦
          let gone : contents buf ≡ contents s.snd_buf ++ op.buf = c ∙ if_true _ _ _ e in
          rw e (
            one_more op ops s next _ _ gone refl (hiwat-append op.buf s.cb.maxseg s.snd_buf)
              (consume_ops-Sends ops next hm h k))
      | inr e ↦ rw e (record {
        done = [];
        split = refl;
        kept = q;
        bytes = sym (append-nil (contents s.snd_buf));
        told = sym (append-nil s.effects);
        counted = refl;
        waits =
            no_room (ltb 0 (length op.buf))
              (leb (length op.buf + length (contents s.snd_buf)) s.snd_buf.hiwat) _ (sym t ∙ e) hm;
        hiwat = refl;
      })
    ]

pending-consume_ops :
    (ops : List SendOp) (s : Sock) → (consume_ops ops s).0.pending_data ≡ s.pending_data
unfolding consume_ops
pending-consume_ops [] s = refl
pending-consume_ops (op ∷ ops) s =
    let next =
      emit (post_send op.handler none (length op.buf))
        (record s { snd_buf = (append op.buf s.cb.maxseg s.snd_buf).0 }) in
    ground (arith, pending-consume_ops ops next)

-- The user's bytes enter the stream in the order in which they were given: `consume_pending_data`
-- moves the bytes of the first operations, all of each, to the end of the send buffer, posts their
-- handlers with their sizes in that order, and takes their count off what is pending. It stops at
-- the first operation that is empty or does not fit under `hiwat`. This is so for a send buffer
-- that is valid and a segment size above 0, which leaves a packet with its header below 2 ^ 16 bytes.
pub consume_pending_data-Sends :
    (s : Sock)
    → 0 < s.cb.maxseg
    → s.cb.maxseg + hdr_size < u16_mod
    → IsValid s.snd_buf
    → let r = consume_pending_data s in
      Sends s.send_ops s r.0 r.1 × (r.0.pending_data ≡ sub32 s.pending_data r.1)
unfolding consume_pending_data
consume_pending_data-Sends s hm h q =
    let r = consume_ops-Sends s.send_ops s hm h q in
    (
      record {
        done = r.done;
        split = r.split;
        kept = r.kept;
        bytes = r.bytes;
        told = r.told;
        counted = r.counted;
        waits = r.waits;
        hiwat = r.hiwat;
      },
      ap (λ n. sub32 n (consume_ops s.send_ops s).1) (pending-consume_ops s.send_ops s),
    )
