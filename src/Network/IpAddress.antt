-- ===== src/Network/IpAddress.antt =====
-- The part of Python's `ipaddress` module that the policy reads: the classification of one parsed
-- address, with the tables of CPython 3.12 (3.12.8 and later), the interpreter of
-- infra/docker/backend.Dockerfile.
use native.Mathlib.Decide.{ℕ_discrete}
use sentinel_gpt.Common.{
  ℕ, ◌+◌, ◌-◌, ◌*◌, ◌/◌, ◌%◌, ◌^◌, Bool, not, ◌&&◌, List, [], ◌∷◌, ◌==◌, Eq, nat_eq, if◌then◌else◌,
  any_of,
}

-- `IPv4Address` and `IPv6Address`, as the integer that each stands for.
pub data IpAddress : Type 0 where
  v4 : ℕ → IpAddress
  v6 : ℕ → IpAddress

instance unfoldable pub ip_eq : Eq IpAddress
unfolding ℕ_discrete
ip_eq = record { dec = hlevel ℕ_discrete }

abbrev pub quad : ℕ → ℕ → ℕ → ℕ → ℕ
quad a b c d = ((a * 256 + b) * 256 + c) * 256 + d

-- The groups of an IPv6 address, the leading three and the last one.
abbrev pub groups : ℕ → ℕ → ℕ → ℕ → ℕ
groups a b c z = a * 2 ^ 112 + b * 2 ^ 96 + c * 2 ^ 80 + z

-- A network by its first address and its prefix length.
abbrev pub Network : Type 0
Network = ℕ × ℕ

unfoldable pub in_network : ℕ → ℕ → Network → Bool
unfolding nat_eq
in_network bits a (base, length) = a / 2 ^ (bits - length) == base / 2 ^ (bits - length)

abbrev pub in_any : ℕ → ℕ → List Network → Bool
in_any bits a networks = any_of (in_network bits a) networks

abbrev pub private_v4 : List Network
private_v4 =
    (quad 0 0 0 0, 8)
    ∷ (quad 10 0 0 0, 8)
    ∷ (quad 127 0 0 0, 8)
    ∷ (quad 169 254 0 0, 16)
    ∷ (quad 172 16 0 0, 12)
    ∷ (quad 192 0 0 0, 24)
    ∷ (quad 192 0 0 170, 31)
    ∷ (quad 192 0 2 0, 24)
    ∷ (quad 192 168 0 0, 16)
    ∷ (quad 198 18 0 0, 15)
    ∷ (quad 198 51 100 0, 24)
    ∷ (quad 203 0 113 0, 24)
    ∷ (quad 240 0 0 0, 4)
    ∷ (quad 255 255 255 255, 32)
    ∷ []

abbrev pub private_exceptions_v4 : List Network
private_exceptions_v4 = (quad 192 0 0 9, 32) ∷ (quad 192 0 0 10, 32) ∷ []

abbrev private_v6 : List Network
private_v6 =
    (1, 128)
    ∷ (0, 128)
    ∷ (0xffff * 2 ^ 32, 96)
    ∷ (groups 0x64 0xff9b 1 0, 48)
    ∷ (groups 0x100 0 0 0, 64)
    ∷ (groups 0x2001 0 0 0, 23)
    ∷ (groups 0x2001 0xdb8 0 0, 32)
    ∷ (groups 0x2002 0 0 0, 16)
    ∷ (groups 0x3fff 0 0 0, 20)
    ∷ (groups 0xfc00 0 0 0, 7)
    ∷ (groups 0xfe80 0 0 0, 10)
    ∷ []

abbrev private_exceptions_v6 : List Network
private_exceptions_v6 =
    (groups 0x2001 1 0 1, 128)
    ∷ (groups 0x2001 1 0 2, 128)
    ∷ (groups 0x2001 3 0 0, 32)
    ∷ (groups 0x2001 4 0x112 0, 48)
    ∷ (groups 0x2001 0x20 0 0, 28)
    ∷ (groups 0x2001 0x30 0 0, 28)
    ∷ []

abbrev reserved_v6 : List Network
reserved_v6 =
    (0, 8)
    ∷ (groups 0x100 0 0 0, 8)
    ∷ (groups 0x200 0 0 0, 7)
    ∷ (groups 0x400 0 0 0, 6)
    ∷ (groups 0x800 0 0 0, 5)
    ∷ (groups 0x1000 0 0 0, 4)
    ∷ (groups 0x4000 0 0 0, 3)
    ∷ (groups 0x6000 0 0 0, 3)
    ∷ (groups 0x8000 0 0 0, 3)
    ∷ (groups 0xa000 0 0 0, 3)
    ∷ (groups 0xc000 0 0 0, 3)
    ∷ (groups 0xe000 0 0 0, 4)
    ∷ (groups 0xf000 0 0 0, 5)
    ∷ (groups 0xf800 0 0 0, 6)
    ∷ (groups 0xfe00 0 0 0, 9)
    ∷ []

-- The properties of an address that the policy tests.
pub record Classes : Type 0 where
  pub is_unspecified : Bool
  pub is_loopback : Bool
  pub is_link_local : Bool
  pub is_multicast : Bool
  pub is_reserved : Bool
  pub is_private : Bool
  pub is_global : Bool

unfoldable pub classes_v4 : ℕ → Classes
unfolding in_network
classes_v4 a =
    let private = in_any 32 a private_v4 && not (in_any 32 a private_exceptions_v4) in
    record {
      is_unspecified = a == 0;
      is_loopback = in_network 32 a (quad 127 0 0 0, 8);
      is_link_local = in_network 32 a (quad 169 254 0 0, 16);
      is_multicast = in_network 32 a (quad 224 0 0 0, 4);
      is_reserved = in_network 32 a (quad 240 0 0 0, 4);
      is_private = private;
      is_global = not (in_network 32 a (quad 100 64 0 0, 10)) && not private;
    }

classes_v6_plain : ℕ → Classes
unfolding in_network
classes_v6_plain a =
    let private = in_any 128 a private_v6 && not (in_any 128 a private_exceptions_v6) in
    record {
      is_unspecified = a == 0;
      is_loopback = a == 1;
      is_link_local = in_network 128 a (groups 0xfe80 0 0 0, 10);
      is_multicast = in_network 128 a (groups 0xff00 0 0 0, 8);
      is_reserved = in_any 128 a reserved_v6;
      is_private = private;
      is_global = not private;
    }

-- `ipv4_mapped`: the address lies in ::ffff:0:0/96.
abbrev pub is_mapped : ℕ → Bool
is_mapped a = a / 2 ^ 32 == 0xffff

-- An IPv4-mapped address has the properties of the IPv4 address inside it.
unfoldable pub classes : IpAddress → Classes
unfolding classes_v4 classes_v6_plain
classes (v4 a) = classes_v4 a
classes (v6 a) = if is_mapped a then classes_v4 (a % 2 ^ 32) else classes_v6_plain a
