-- ===== src/PubAddr/Answers.antt =====
-- What the public address client makes of the server's answer, udt/udp_pub_addr.cpp.
use udt_boost.Base.{
  ℕ, ◌≤◌, ◌<◌, ◌≡◌, ◌≢◌, refl, ap, ap₂, ◌∙◌, sym, true, false, ◌||◌, ◌==◌, leb, List, [], ◌∷◌, ◌++◌,
  Option, none, some, length, arith, All, All-append, append-nil, u32_mod, u16_mod, u16,
}
use udt_boost.Tracker
use udt_boost.Tracker.{WeakRefer}
use udt_boost.Text.{c_str, strchr, skip_spaces, rfind, atoi, digits}
use udt_boost.Text.Digits.{IsDigit, digits-All, atoi-digits, strchr-append, rfind-append, c_str_lem}
use udt_boost.Endpoint.{same_refl, or_any, up_to_last, parse_endpoint}
use udt_boost.PubAddr.{
  PubAddr, notify, read_answer, handle_datagram, handle_async_receive, dft_rcv_buf_size,
}

-- The text of an address: digits and dots.
abbrev pub IsAddress : List ℕ → Type 0
IsAddress ip = All (λ c. (46 ≤ c) × (c ≤ 57)) ip

-- "<address>:<port>", and the answer of the server, "A=<trid>|RA: <address>:<port>".
abbrev pub endpoint_text : List ℕ → ℕ → List ℕ
endpoint_text ip port = ip ++ b':' ∷ digits port

abbrev pub answer : ℕ → List ℕ → ℕ → List ℕ
answer trid ip port =
    b'A' ∷ b'=' ∷ (digits trid ++ b'|' ∷ b'R' ∷ b'A' ∷ b':' ∷ b' ' ∷ endpoint_text ip port)

All-imp : (P Q : ℕ → Type 0) → ((c : ℕ) → P c → Q c) → (xs : List ℕ) → All P xs → All Q xs
All-imp P Q f [] h = tt
All-imp P Q f (x ∷ xs) h = (f x h.0, All-imp P Q f xs h.1)

digits-ne : (b n : ℕ) → 57 < b → All (λ c. c ≢ b) (digits n)
digits-ne b n h =
    All-imp IsDigit (λ c. c ≢ b) (λ c d e. absurd (omega (arith, d, e))) (digits n) (digits-All n)

skip_address :
    (ip : List ℕ) (port : ℕ)
    → IsAddress ip
    → skip_spaces (b' ' ∷ endpoint_text ip port) ≡ endpoint_text ip port
unfolding skip_spaces
skip_address [] port h = refl
skip_address (c ∷ ip) port h = let e : (c == 32) ≡ false = ground (arith, h.0) in rw e refl

parse_found :
    (from_string : List ℕ → Option ℕ) (str rest before after : List ℕ)
    → strchr b':' str ≡ some rest
    → rfind b':' str ≡ some (before, after)
    → parse_endpoint from_string str
      ≡ some (record {
        address = or_any (from_string (up_to_last (skip_spaces rest)));
        port = u16 (atoi after);
      })
unfolding parse_endpoint
parse_found from_string str rest before after e f = rw (e, f, parse_endpoint) refl

parse_lem :
    (from_string : List ℕ → Option ℕ) (ip : List ℕ) (port : ℕ)
    → IsAddress ip
    → port < u16_mod
    → parse_endpoint from_string (b'R' ∷ b'A' ∷ b':' ∷ b' ' ∷ endpoint_text ip port)
      ≡ some (record { address = or_any (from_string ip); port = port })
parse_lem from_string ip port h small =
    let text = endpoint_text ip port in
    let plain = digits-ne b':' port (omega arith) in
    let whole : rfind b':' (b'R' ∷ b'A' ∷ b':' ∷ b' ' ∷ text)
        ≡ some (b'R' ∷ b'A' ∷ b':' ∷ b' ' ∷ ip, digits port) =
      rfind-append b':' (b'R' ∷ b'A' ∷ b':' ∷ b' ' ∷ ip) (digits port) plain in
    let inner : up_to_last text ≡ ip =
      rw (rfind-append b':' ip (digits port) plain, up_to_last) refl in
    let number : atoi (digits port) ≡ port =
      ap atoi (sym (append-nil (digits port))) ∙ atoi-digits port [] (omega (arith, small)) refl in
    let skipped = skip_address ip port h in
    parse_found from_string (b'R' ∷ b'A' ∷ b':' ∷ b' ' ∷ text) (b' ' ∷ text)
      (b'R' ∷ b'A' ∷ b':' ∷ b' ' ∷ ip) (digits port) (unfold strchr in refl) whole
    ∙ ap₂ (λ a n. some (record { address = or_any (from_string a); port = u16 n }))
        (ap up_to_last skipped ∙ inner) number
    ∙ ap (λ p. some (record { address = or_any (from_string ip); port = p })) (omega arith)

abbrev NotZero : ℕ → Type 0
NotZero c = c ≢ 0

pub answer_plain :
    (trid : ℕ) (ip : List ℕ) (port : ℕ)
    → IsAddress ip
    → c_str (answer trid ip port) ≡ answer trid ip port
answer_plain trid ip port h =
    let number : (n : ℕ) → All NotZero (digits n) = λ n.
      All-imp IsDigit NotZero (λ c d e. absurd (omega (arith, d, e))) (digits n) (digits-All n) in
    let address : All NotZero ip =
      All-imp (λ c. (46 ≤ c) × (c ≤ 57)) NotZero (λ c d e. absurd (omega (arith, d, e))) ip h in
    let byte : (b : ℕ) → 0 < b → NotZero b = λ b lt e. absurd (omega (arith, lt, e)) in
    let endpoint =
      All-append NotZero ip (b':' ∷ digits port) address (byte b':' (omega arith), number port) in
    let marks : List ℕ = b'|' ∷ b'R' ∷ b'A' ∷ b':' ∷ b' ' ∷ endpoint_text ip port in
    let tail : All NotZero marks = (
      byte b'|' (omega arith),
      (
        byte b'R' (omega arith),
        (byte b'A' (omega arith), (byte b':' (omega arith), (byte b' ' (omega arith), endpoint))),
      ),
    ) in
    c_str_lem (answer trid ip port) (
      byte b'A' (omega arith),
      (byte b'=' (omega arith), All-append NotZero (digits trid) marks (number trid) tail),
    )

-- Where the parsers find the number and the endpoint in an answer.
pub record Parts (from_string : List ℕ → Option ℕ) (trid : ℕ) (ip : List ℕ) (port : ℕ)
    : Type 0 where
  pub number : List ℕ
  pub rest : List ℕ
  pub behind_equals : strchr b'=' (answer trid ip port) ≡ some number
  pub behind_bar : strchr b'|' (answer trid ip port) ≡ some rest
  pub is_trid : atoi number ≡ trid
  pub is_endpoint :
      parse_endpoint from_string rest
      ≡ some (record { address = or_any (from_string ip); port = port })

pub Parts-answer :
    (from_string : List ℕ → Option ℕ) (trid : ℕ) (ip : List ℕ) (port : ℕ)
    → IsAddress ip
    → trid < u32_mod
    → port < u16_mod
    → Parts from_string trid ip port
Parts-answer from_string trid ip port h t p =
    let tail = b'R' ∷ b'A' ∷ b':' ∷ b' ' ∷ endpoint_text ip port in
    record {
      number = digits trid ++ b'|' ∷ tail;
      rest = tail;
      behind_equals = unfold strchr in refl;
      behind_bar = strchr-append b'|' (b'A' ∷ b'=' ∷ digits trid) tail (
        λ e. absurd (omega (arith, e)),
        (λ e. absurd (omega (arith, e)), digits-ne b'|' trid (omega arith)),
      );
      is_trid = atoi-digits trid (b'|' ∷ tail) t refl;
      is_endpoint = parse_lem from_string ip port h p;
    }

-- The client reads from the answer to its request the endpoint that the server put into it.
read_answer-answer :
    (from_string : List ℕ → Option ℕ) (trid : ℕ) (ip : List ℕ) (port : ℕ)
    → IsAddress ip
    → trid < u32_mod
    → port < u16_mod
    → read_answer from_string trid (answer trid ip port)
      ≡ some (record { address = or_any (from_string ip); port = port })
unfolding read_answer
read_answer-answer from_string trid ip port h t p =
    let parts = Parts-answer from_string trid ip port h t p in
    let right : (atoi parts.number == trid) ≡ true = ground (arith, parts.is_trid) in
    rw (parts.behind_equals, right, parts.behind_bar, read_answer) parts.is_endpoint

-- The client learns its public endpoint: the answer to its request, from the server, makes it tell its
-- handler the address and the port that the server put into the answer, in which the number of the
-- transaction, the address and the port stand as text. The client has not been cancelled, the address
-- is one that asio reads, and the answer is shorter than the buffer.
pub handle_async_receive-answer :
    (from_string : List ℕ → Option ℕ) (ip : List ℕ) (a port : ℕ) (wref : WeakRefer) (c : PubAddr)
    → IsAddress ip
    → from_string ip ≡ some a
    → port < u16_mod
    → c.trid < u32_mod
    → Tracker.expired wref c.tracker ≡ false
    → length (answer c.trid ip port) < dft_rcv_buf_size
    → handle_async_receive from_string none (answer c.trid ip port) c.server_ep wref c
      ≡ notify (record c { pub_addr_ep = record { address = a; port = port } })
unfolding handle_async_receive handle_datagram
handle_async_receive-answer from_string ip a port wref c h known p t alive short =
    let text = answer c.trid ip port in
    let read : read_answer from_string c.trid (c_str text)
        ≡ some (record { address = a; port = port }) =
      ap (read_answer from_string c.trid) (answer_plain c.trid ip port h)
      ∙ read_answer-answer from_string c.trid ip port h t p
      ∙ ap (λ o. some (record { address = or_any o; port = port })) known in
    let fits : leb dft_rcv_buf_size (length text) ≡ false = ground (arith, short) in
    let same_fault : (c.fault || leb dft_rcv_buf_size (length text)) ≡ c.fault =
      ground (arith, fits) in
    rw (alive, same_refl c.server_ep, handle_async_receive, handle_datagram, read, same_fault) refl
