-- ===== src/PubAddr/Retry.antt =====
-- A public address client whose server's name is not resolved, udt/udp_pub_addr.cpp.
use udt_boost.Base.{ℕ, ◌≡◌, ◌<◌, refl, ap, ◌∙◌, true, false, List, Option, none, some, arith}
use udt_boost.Asio.{ErrorCode}
use udt_boost.Tracker.{WeakRefer}
use udt_boost.Endpoint.{Endpoint, no_endpoint, same, or_any}
use udt_boost.PubAddr.{
  PubAddr, notify, async_resolve, async_pub_addr, handle_async_resolve, send_request,
  ensure_tracker,
}

-- The client after a call of `async_pub_addr`, and after the resolver has failed.
abbrev pub unresolved :
    (List ℕ → Option ℕ) → (ℕ → Option ErrorCode) → ℕ → ErrorCode → WeakRefer → PubAddr → PubAddr
unresolved from_string net handler e w c =
    handle_async_resolve net (some e) none w (async_pub_addr from_string net handler c)

resolving :
    (from_string : List ℕ → Option ℕ) (net : ℕ → Option ErrorCode) (handler : ℕ) (c : PubAddr)
    → from_string c.server_hostname ≡ none
    → c.server_ep ≡ no_endpoint
    → (async_pub_addr from_string net handler c).server_ep
      ≡ record { address = 0; port = c.server_port }
unfolding async_pub_addr async_resolve
resolving from_string net handler c unknown new =
    let first : same c.server_ep no_endpoint ≡ true = ground (arith, new) in
    rw (first, async_pub_addr, unknown, async_resolve)
      (ap (λ o. record { address = or_any o; port = c.server_port }) unknown)

failing_keeps :
    (net : ℕ → Option ErrorCode) (e : ErrorCode) (w : WeakRefer) (c : PubAddr)
    → (handle_async_resolve net (some e) none w c).server_ep ≡ c.server_ep
unfolding handle_async_resolve notify
failing_keeps net e w c = ground arith

known_server :
    (from_string : List ℕ → Option ℕ) (net : ℕ → Option ErrorCode) (handler : ℕ) (c : PubAddr)
    → same c.server_ep no_endpoint ≡ false
    → async_pub_addr from_string net handler c
      ≡ send_request net (record c {
        handler = handler;
        tracker = ensure_tracker c.tracker;
        pub_addr_ep = no_endpoint;
      })
unfolding async_pub_addr
known_server from_string net handler c e = rw (e, async_pub_addr) refl

not_default :
    (ep : Endpoint) (port : ℕ)
    → 0 < port
    → ep ≡ record { address = 0; port = port }
    → same ep no_endpoint ≡ false
not_default ep port h e = ground arith

-- After the name of the server was not resolved, a second try does not ask the resolver again, but
-- sends its request to the unspecified address: `async_resolve` has noted the endpoint that it made of
-- the name before it knew that the name is no address. The server's port is not 0.
pub async_pub_addr-unresolved :
    (from_string : List ℕ → Option ℕ) (net : ℕ → Option ErrorCode) (h1 h2 : ℕ) (e : ErrorCode)
    (w : WeakRefer) (c : PubAddr)
    → from_string c.server_hostname ≡ none
    → c.server_ep ≡ no_endpoint
    → 0 < c.server_port
    → ((unresolved from_string net h1 e w c).server_ep
        ≡ record { address = 0; port = c.server_port })
      × (async_pub_addr from_string net h2 (unresolved from_string net h1 e w c)
          ≡ send_request net (record (unresolved from_string net h1 e w c) {
            handler = h2;
            tracker = ensure_tracker (unresolved from_string net h1 e w c).tracker;
            pub_addr_ep = no_endpoint;
          }))
async_pub_addr-unresolved from_string net h1 h2 e w c unknown new pos =
    let c2 = unresolved from_string net h1 e w c in
    let at_any : c2.server_ep ≡ record { address = 0; port = c.server_port } =
      failing_keeps net e w (async_pub_addr from_string net h1 c)
      ∙ resolving from_string net h1 c unknown new in
    let other = not_default c2.server_ep c.server_port pos at_any in
    (at_any, known_server from_string net h2 c2 other)
