-- ===== src/InetAddress.antt =====
-- InetAddress.h and InetAddress.cpp: an IPv4 address and a port, as bytes of `sockaddr_in`.
use cc_server.Prelude.{
  ℕ, ◌^◌, ◌<◌, ◌≡◌, ap, ap₂, ◌∙◌, Bool, true, false, List, [], ◌∷◌, ◌++◌, Option, none, some,
  replicate, if◌then◌else◌,
}
use cc_server.Endian.{
  ByteOrder, store, load, htobe, betoh, network_bytes, low_bytes, store-htobe, betoh-load,
}

-- inet_pton(3) and inet_ntop(3) for AF_INET, over the four bytes of an address in memory, and
-- `std::to_string`.
pub record Inet : Type 0 where
  pub pton : List ℕ → Option (List ℕ)
  pub ntop : List ℕ → Option (List ℕ)
  pub to_string : ℕ → List ℕ

-- `sin_addr` and `sin_port` as they are in memory, and how often an error was logged.
pub record InetAddress : Type 0 where
  pub sin_addr : List ℕ
  pub sin_port : List ℕ
  pub errors : ℕ

abbrev pub inaddr_loopback : ℕ
inaddr_loopback = 0x7f00_0001

module _ (inet : Inet) (o : ByteOrder) where
  unfoldable pub create : ℕ → Bool → InetAddress
  create port loopback = record {
    sin_addr = store o 4 (htobe o 4 (if loopback then inaddr_loopback else 0));
    sin_port = store o 2 (htobe o 2 port);
    errors = 0;
  }

  -- The address that inet_pton(3) read, over the zeros of `bzero`.
  abbrev pub address_or_zero : Option (List ℕ) → List ℕ
  address_or_zero none = replicate 4 0
  address_or_zero (some bytes) = bytes

  abbrev pub errors_of : Option (List ℕ) → ℕ
  errors_of none = 1
  errors_of (some bytes) = 0

  unfoldable pub from_text : List ℕ → ℕ → InetAddress
  from_text ip port = record {
    sin_addr = address_or_zero (inet.pton ip);
    sin_port = store o 2 (htobe o 2 port);
    errors = errors_of (inet.pton ip);
  }

  unfoldable pub set_address : InetAddress → InetAddress → InetAddress
  set_address addr a = record a { sin_addr = addr.sin_addr; sin_port = addr.sin_port }

  -- The text, or none where `buf[0]` was set to 0.
  abbrev pub text_or_empty : Option (List ℕ) → List ℕ
  text_or_empty none = []
  text_or_empty (some text) = text

  unfoldable pub to_ip : InetAddress → List ℕ
  to_ip a = text_or_empty (inet.ntop a.sin_addr)

  unfoldable pub to_port : InetAddress → ℕ
  to_port a = betoh o 2 (load o a.sin_port)

  unfoldable pub to_ip_port : InetAddress → List ℕ
  unfolding to_ip to_port
  to_ip_port a = (to_ip a ++ (58 ∷ [])) ++ inet.to_string (to_port a)

  stored_port : (port : ℕ) → port < 2 ^ 16 → betoh o 2 (load o (store o 2 (htobe o 2 port))) ≡ port
  stored_port port fits =
      ap (λ l. betoh o 2 (load o l)) (store-htobe o 2 port) ∙ betoh-load o 2 port fits

  address :
      (loopback : Bool)
      → store o 4 (htobe o 4 (if loopback then inaddr_loopback else 0))
        ≡ (if loopback then 127 ∷ 0 ∷ 0 ∷ 1 ∷ [] else 0 ∷ 0 ∷ 0 ∷ 0 ∷ [])
  unfolding network_bytes low_bytes
  address true = store-htobe o 4 inaddr_loopback
  address false = store-htobe o 4 0

  -- On each host the port of a new address stands in network order in memory and is read again, and
  -- the address is 127.0.0.1 or 0.0.0.0.
  pub create_lem :
      (port : ℕ) (loopback : Bool)
      → port < 2 ^ 16
      → ((create port loopback).sin_port ≡ network_bytes 2 port)
        × (to_port (create port loopback) ≡ port)
        × ((create port loopback).sin_addr
            ≡ (if loopback then 127 ∷ 0 ∷ 0 ∷ 1 ∷ [] else 0 ∷ 0 ∷ 0 ∷ 0 ∷ []))
  unfolding create to_port
  create_lem port loopback fits = (store-htobe o 2 port, stored_port port fits, address loopback)

  -- The text of an address that was read from a text names that address and the port. Assumed:
  -- inet_pton(3) reads the text, and inet_ntop(3) writes the address so.
  pub to_ip_port-from_text :
      (ip : List ℕ) (bytes : List ℕ) (port : ℕ)
      → inet.pton ip ≡ some bytes
      → inet.ntop bytes ≡ some ip
      → port < 2 ^ 16
      → to_ip_port (from_text ip port) ≡ (ip ++ (58 ∷ [])) ++ inet.to_string port
  unfolding to_ip_port from_text to_ip to_port
  to_ip_port-from_text ip bytes port reads writes fits =
      ap₂ (λ text n. (text ++ (58 ∷ [])) ++ inet.to_string n)
        (ap (λ b. text_or_empty (inet.ntop (address_or_zero b))) reads ∙ ap text_or_empty writes)
        (stored_port port fits)
