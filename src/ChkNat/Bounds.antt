-- ===== src/ChkNat/Bounds.antt =====
-- The numbers that the NAT check of udt/udp_chknat.cpp takes for indices.
use udt_boost.Base.{
  ℕ, ◌<◌, ◌≡◌, ap, ◌∙◌, Bool, false, ◌||◌, leb, List, Option, some, length, arith, if_ind, u32_mod,
  u16_mod,
}
use udt_boost.Text.{c_str}
use udt_boost.Endpoint.{Endpoint, same_refl, or_any}
use udt_boost.PubAddr.Answers.{IsAddress, answer, answer_plain, Parts-answer}
use udt_boost.ChkNat.{
  ChkNat, notify, cancel, analyze, async_receive, finish, read_answer, take_answer, handle_datagram,
  dft_rcv_buf_size,
}

read_answer_lem :
    (from_string : List ℕ → Option ℕ) (n : ℕ) (ip : List ℕ) (port : ℕ)
    → IsAddress ip
    → n < u32_mod
    → port < u16_mod
    → read_answer from_string (answer n ip port)
      ≡ some (n, record { address = or_any (from_string ip); port = port })
unfolding read_answer
read_answer_lem from_string n ip port h t p =
    let parts = Parts-answer from_string n ip port h t p in
    rw (parts.behind_equals, parts.behind_bar, parts.is_endpoint, read_answer)
      (ap (λ k. some (k, record { address = or_any (from_string ip); port = port })) parts.is_trid)

analyze_fault : (found : List (Endpoint × Bool)) (c : ChkNat) → (analyze found c).fault ≡ c.fault
unfolding analyze notify cancel
analyze_fault found c = ground arith

-- The number in an answer is used as an index without a bound: an answer of a server with the number
-- `n` makes the code write outside its arrays exactly when `n` is not below 4. The answer is shorter
-- than the buffer, and nothing was written outside before.
pub handle_datagram_fault :
    (from_string : List ℕ → Option ℕ) (found : List (Endpoint × Bool)) (n : ℕ) (ip : List ℕ)
    (port : ℕ) (c : ChkNat)
    → IsAddress ip
    → n < u32_mod
    → port < u16_mod
    → length (answer n ip port) < dft_rcv_buf_size
    → c.fault ≡ false
    → (handle_datagram from_string found (answer n ip port) c.server_0 c).fault ≡ leb 4 n
unfolding handle_datagram take_answer async_receive
handle_datagram_fault from_string found n ip port c h t p short clean =
    let text = answer n ip port in
    let read : read_answer from_string (c_str text)
        ≡ some (n, record { address = or_any (from_string ip); port = port }) =
      ap (read_answer from_string) (answer_plain n ip port h)
      ∙ read_answer_lem from_string n ip port h t p in
    let ep : Endpoint = record { address = or_any (from_string ip); port = port } in
    let c1 = record c { fault = c.fault || leb dft_rcv_buf_size (length text) } in
    let c2 = take_answer n ep c1 in
    let fits : (c.fault || leb dft_rcv_buf_size (length text)) ≡ false =
      ground (arith, short, clean) in
    let faulty : c2.fault ≡ leb 4 n = ap (λ b. b || leb 4 n) fits in
    rw (same_refl c.server_0, handle_datagram, read)
      (if_ind (λ (x : ChkNat). x.fault ≡ leb 4 n) (finish c2) (analyze_fault found c2 ∙ faulty)
        faulty)
