-- ===== src/Socket/Setup.antt =====
-- The rest of common/socket.cxx: the socket is made, configured and closed. The calls are parameters,
-- each with whether it succeeded.
use coxx.Base.{
  ℕ, ◌+◌, ◌*◌, ◌/◌, ◌%◌, ◌^◌, Bool, true, false, Option, none, some, [], ◌∷◌, ◌⊎◌, inl, inr,
  if◌then◌else◌,
}
use coxx.Base.Bytes.{Bytes, u32_mod}
use coxx.Entry.{same_text}

-- The exceptions, named by the call that failed; `invalid_type` is the `std::invalid_argument`.
pub data Thrown : Type 0 where
  no_socket no_options no_bind no_connect no_listen invalid_type : Thrown

-- `sin_port` and `sin_addr`, as the numbers that the machine reads in these fields.
pub record Address : Type 0 where
  pub port : ℕ
  pub host : ℕ

pub record Network (World : Type 0) : Type 0 where
  pub socket : World → World × Option ℕ
  pub set_reuse_address : World → ℕ → World × Bool
  pub bind : World → ℕ → Address → World × Bool
  pub connect : World → ℕ → Address → World × Bool
  pub listen : World → ℕ → World × Bool
  pub close : World → ℕ → World

-- `ntohs` and `ntohl` on a little-endian machine.
unfoldable pub ntohs : ℕ → ℕ
ntohs n = n % 256 * 256 + n / 256 % 256

unfoldable pub ntohl : ℕ → ℕ
ntohl n = ntohs (n % 2 ^ 16) * 2 ^ 16 + ntohs (n / 2 ^ 16)

-- "server" and "client"
abbrev pub server_type : Bytes
server_type = 115 ∷ 101 ∷ 114 ∷ 118 ∷ 101 ∷ 114 ∷ []

abbrev pub client_type : Bytes
client_type = 99 ∷ 108 ∷ 105 ∷ 101 ∷ 110 ∷ 116 ∷ []

module _ {World : Type 0} where
  -- `throw` where a call failed.
  unfoldable pub thrown_unless : Thrown → World × Bool → World × Option Thrown
  thrown_unless t (w, true) = (w, none)
  thrown_unless t (w, false) = (w, some t)

  -- The next statement, unless an exception was thrown.
  unfoldable pub and_then :
      World × Option Thrown → (World → World × Option Thrown) → World × Option Thrown
  and_then (w, none) next = next w
  and_then (w, some t) next = (w, some t)

  -- What the constructor does with the result of `socket`.
  unfoldable pub constructed : World × Option ℕ → World × (Thrown ⊎ ℕ)
  constructed (w, none) = (w, inl no_socket)
  constructed (w, some fd) = (w, inr fd)

  module _ (network : Network World) where
    unfoldable pub new_socket : World → World × (Thrown ⊎ ℕ)
    new_socket w = constructed (network.socket w)

    -- `~Socket`
    unfoldable pub delete_socket : ℕ → World → World
    delete_socket fd w = network.close w fd

    unfoldable pub set_options : ℕ → World → World × Option Thrown
    set_options fd w = thrown_unless no_options (network.set_reuse_address w fd)

    unfoldable pub configure_connection : ℕ → ℕ → ℕ → Bytes → World → World × Option Thrown
    configure_connection fd port netaddr connection_type w =
        let addr : Address = record {
          port = ntohs (port % 2 ^ 16);
          host = ntohl (netaddr % u32_mod);
        } in
        if same_text connection_type server_type
        then thrown_unless no_bind (network.bind w fd addr)
        else if same_text connection_type client_type
        then thrown_unless no_connect (network.connect w fd addr)
        else (w, some invalid_type)
