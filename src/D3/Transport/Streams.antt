-- ===== src/D3/Transport/Streams.antt =====
-- Whole messages over the byte stream of crates/luxstream-otap-d3/src/transport.rs.
use otap_signup_validator.Common.{
  ℕ, ◌-◌, ◌≤◌, ◌≡◌, arith, List, ◌++◌, length, length-append, take-append, drop-append, ok,
}
use otap_signup_validator.D3.Transport.{write_all, read_exact}

-- A whole message at the front of what arrives is read, and what follows is left.
pub read_exact-append :
    (msg rest sent : List ℕ) (accepts n : ℕ)
    → length msg ≡ n
    → read_exact (record { incoming = msg ++ rest; outgoing = sent; accepts = accepts }) n
      ≡ ok (msg, record { incoming = rest; outgoing = sent; accepts = accepts })
unfolding read_exact
read_exact-append msg rest sent accepts n e =
    rw (← e) (ground (arith, length-append msg rest, take-append msg rest, drop-append msg rest))

pub write_all-room :
    (incoming sent bytes : List ℕ) (accepts : ℕ)
    → length bytes ≤ accepts
    → write_all (record { incoming = incoming; outgoing = sent; accepts = accepts }) bytes
      ≡ ok (record {
        incoming = incoming;
        outgoing = sent ++ bytes;
        accepts = accepts - length bytes;
      })
unfolding write_all
write_all-room incoming sent bytes accepts h = ground arith
