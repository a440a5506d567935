-- ===== src/Net.antt =====
-- include/driveflow/net/udp_socket.hpp: the addresses and datagrams that the runtime handles.
pub mod Socket
use driveflow_runtime.Prelude.{
  ℕ, ◌≡◌, refl, Bool, true, false, ◌&&◌, ◌||◌, List, [], ◌∷◌, arith, ◌==◌,
}

-- std::string as its characters' codes.
abbrev pub Text : Type 0
Text = List ℕ

-- operator== of std::string
unfoldable pub text_eq : Text → Text → Bool
text_eq [] [] = true
text_eq [] (b ∷ bs) = false
text_eq (a ∷ rest) [] = false
text_eq (a ∷ rest) (b ∷ bs) = a == b && text_eq rest bs

pub text_eq_refl : (a : Text) → text_eq a a ≡ true
unfolding text_eq
text_eq_refl [] = cc
text_eq_refl (a ∷ rest) = ground (arith, text_eq_refl rest)

pub text_eq-eq : (a b : Text) → text_eq a b ≡ true → a ≡ b
unfolding text_eq
text_eq-eq [] [] e = refl
text_eq-eq [] (b ∷ bs) e = cc
text_eq-eq (a ∷ rest) [] e = cc
text_eq-eq (a ∷ rest) (b ∷ bs) e = ground (arith, text_eq-eq rest bs)

pub record Ipv4Endpoint : Type 0 where
  pub address : Text
  pub port : ℕ

unfoldable pub endpoint_eq : Ipv4Endpoint → Ipv4Endpoint → Bool
endpoint_eq a b = text_eq a.address b.address && a.port == b.port

pub record ReceivedDatagram : Type 0 where
  pub bytes : List ℕ
  pub source : Ipv4Endpoint

-- The search in the std::unordered_set of the texts seen.
unfoldable pub contains : Text → List Text → Bool
unfolding text_eq
contains a [] = false
contains a (b ∷ bs) = text_eq a b || contains a bs
