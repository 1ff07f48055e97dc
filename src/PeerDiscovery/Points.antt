-- ===== src/PeerDiscovery/Points.antt =====
-- PeerDiscovery.cpp: the connection point that handle_peer_offer() reads from an offer.
use ll_dlep.Common.{
  ℕ, ◌≡◌, refl, sym, ap, ◌∙◌, ◌⊎◌, inl, inr, true, false, Option, none, some, List, [], ◌∷◌, ◌==◌,
  if◌then◌else◌, Bool-cases, ok, >>=-elim, nat_key, string_key, bytes_key, if-elim, ok-injective,
}
use mathlib.Core.Path.{subst}
use ll_dlep.Message.Build.{ProtocolMessage}
use ll_dlep.Message.Values.{get_port}
use ll_dlep.PeerDiscovery.{
  IpAddress, v4_address, v6_address, Discovery, get_ipv4_address, get_ipv6_address,
  get_ipv4_conn_point, get_ipv6_conn_point, if_found, Connection, use_port, use_ipv4_address,
  use_ipv4_conn_point, use_ipv6_address, use_ipv6_conn_point, connection_point,
}

-- The last one that is there, or else the default.
abbrev pub last_of {ℓ} : {A : Type ℓ} → A → List (Option A) → A
last_of default [] = default
last_of default (none ∷ rest) = last_of default rest
last_of default (some x ∷ rest) = last_of x rest

-- What the data items name: an address that is added, and the address and port of a point.
abbrev pub added_v4 : Option (ℕ × List ℕ) → Option IpAddress
added_v4 none = none
added_v4 (some (field1, ip)) = if field1 == 0 then none else some (v4_address ip)

abbrev pub added_v6 : Option (ℕ × List ℕ) → Option IpAddress
added_v6 none = none
added_v6 (some (field1, ip)) = if field1 == 0 then none else some (v6_address ip 0)

abbrev pub point_v4 : Option (ℕ × List ℕ × ℕ) → Option IpAddress
point_v4 none = none
point_v4 (some (flags, ip, port)) = some (v4_address ip)

abbrev pub point_v6 : Option (ℕ × List ℕ × ℕ) → Option IpAddress
point_v6 none = none
point_v6 (some (flags, ip, port)) = some (v6_address ip 0)

abbrev pub point_port : Option (ℕ × List ℕ × ℕ) → Option ℕ
point_port none = none
point_port (some (flags, ip, port)) = some port

-- Before the IPv6 data items: an IPv4 address, or the one that sent the offer.
abbrev pub IsEarly : IpAddress → Connection → Type 0
IsEarly from c =
    (c.may_need_scope_id ≡ false)
    × (((ip : List ℕ) × (c.dest_ip ≡ v4_address ip)) ⊎ (c.dest_ip ≡ from))

-- An IPv6 address from the offer may need a scope id.
abbrev pub IsPlaced : IpAddress → Connection → Type 0
IsPlaced from c =
    ((c.may_need_scope_id ≡ true)
      × ((ip : List ℕ) × (scope : ℕ) × (c.dest_ip ≡ v6_address ip scope)))
    ⊎ IsEarly from c

last_of-step {ℓ} :
    {A : Type ℓ} (default : A) (o : Option A) (rest : List (Option A))
    → last_of default (o ∷ rest) ≡ last_of (last_of default (o ∷ [])) rest
last_of-step default none rest = refl
last_of-step default (some x) rest = refl

use_ipv4_address-dest :
    (o : Option (ℕ × List ℕ)) (c : Connection)
    → (use_ipv4_address o c).dest_ip ≡ last_of c.dest_ip (added_v4 o ∷ [])
unfolding use_ipv4_address
use_ipv4_address-dest none c = refl
use_ipv4_address-dest (some (field1, ip)) c = elim (Bool-cases (field1 == 0)) [
  | inl z ↦ rw z refl
  | inr z ↦ rw z refl
]

use_ipv6_address-dest :
    (o : Option (ℕ × List ℕ)) (c : Connection)
    → (use_ipv6_address o c).dest_ip ≡ last_of c.dest_ip (added_v6 o ∷ [])
unfolding use_ipv6_address
use_ipv6_address-dest none c = refl
use_ipv6_address-dest (some (field1, ip)) c = elim (Bool-cases (field1 == 0)) [
  | inl z ↦ rw z refl
  | inr z ↦ rw z refl
]

use_ipv4_conn_point-dest :
    (o : Option (ℕ × List ℕ × ℕ)) (c : Connection)
    → (use_ipv4_conn_point o c).dest_ip ≡ last_of c.dest_ip (point_v4 o ∷ [])
unfolding use_ipv4_conn_point
use_ipv4_conn_point-dest none c = refl
use_ipv4_conn_point-dest (some (flags, ip, port)) c = refl

use_ipv6_conn_point-dest :
    (o : Option (ℕ × List ℕ × ℕ)) (c : Connection)
    → (use_ipv6_conn_point o c).dest_ip ≡ last_of c.dest_ip (point_v6 o ∷ [])
unfolding use_ipv6_conn_point
use_ipv6_conn_point-dest none c = refl
use_ipv6_conn_point-dest (some (flags, ip, port)) c = refl

use_ipv4_address-port :
    (o : Option (ℕ × List ℕ)) (c : Connection)
    → (use_ipv4_address o c).session_port ≡ c.session_port
unfolding use_ipv4_address
use_ipv4_address-port none c = refl
use_ipv4_address-port (some (field1, ip)) c =
    if-elim (λ (x : Connection). x.session_port ≡ c.session_port) (field1 == 0) _ _ (λ _. refl)
      (λ _. refl)

use_ipv6_address-port :
    (o : Option (ℕ × List ℕ)) (c : Connection)
    → (use_ipv6_address o c).session_port ≡ c.session_port
unfolding use_ipv6_address
use_ipv6_address-port none c = refl
use_ipv6_address-port (some (field1, ip)) c =
    if-elim (λ (x : Connection). x.session_port ≡ c.session_port) (field1 == 0) _ _ (λ _. refl)
      (λ _. refl)

use_port-port :
    (o : Option ℕ) (c : Connection)
    → ((use_port o c).session_port ≡ last_of c.session_port (o ∷ []))
      × ((use_port o c).dest_ip ≡ c.dest_ip)
      × ((use_port o c).may_need_scope_id ≡ c.may_need_scope_id)
unfolding use_port
use_port-port none c = (refl, refl, refl)
use_port-port (some port) c = (refl, refl, refl)

use_ipv4_conn_point-port :
    (o : Option (ℕ × List ℕ × ℕ)) (c : Connection)
    → (use_ipv4_conn_point o c).session_port ≡ last_of c.session_port (point_port o ∷ [])
unfolding use_ipv4_conn_point
use_ipv4_conn_point-port none c = refl
use_ipv4_conn_point-port (some (flags, ip, port)) c = refl

use_ipv6_conn_point-port :
    (o : Option (ℕ × List ℕ × ℕ)) (c : Connection)
    → (use_ipv6_conn_point o c).session_port ≡ last_of c.session_port (point_port o ∷ [])
unfolding use_ipv6_conn_point
use_ipv6_conn_point-port none c = refl
use_ipv6_conn_point-port (some (flags, ip, port)) c = refl

use_ipv4_address-IsEarly :
    (from : IpAddress) (o : Option (ℕ × List ℕ)) (c : Connection)
    → IsEarly from c
    → IsEarly from (use_ipv4_address o c)
unfolding use_ipv4_address
use_ipv4_address-IsEarly from none c h = h
use_ipv4_address-IsEarly from (some (field1, ip)) c h =
    if-elim (IsEarly from) (field1 == 0) _ _ (λ _. h) (λ _. (h.0, inl (ip, refl)))

use_ipv4_conn_point-IsEarly :
    (from : IpAddress) (o : Option (ℕ × List ℕ × ℕ)) (c : Connection)
    → IsEarly from c
    → IsEarly from (use_ipv4_conn_point o c)
unfolding use_ipv4_conn_point
use_ipv4_conn_point-IsEarly from none c h = h
use_ipv4_conn_point-IsEarly from (some (flags, ip, port)) c h = (h.0, inl (ip, refl))

use_ipv6_address-IsPlaced :
    (from : IpAddress) (o : Option (ℕ × List ℕ)) (c : Connection)
    → IsPlaced from c
    → IsPlaced from (use_ipv6_address o c)
unfolding use_ipv6_address
use_ipv6_address-IsPlaced from none c h = h
use_ipv6_address-IsPlaced from (some (field1, ip)) c h =
    if-elim (IsPlaced from) (field1 == 0) _ _ (λ _. h) (λ _. inl (refl, (ip, 0, refl)))

use_ipv6_conn_point-IsPlaced :
    (from : IpAddress) (o : Option (ℕ × List ℕ × ℕ)) (c : Connection)
    → IsPlaced from c
    → IsPlaced from (use_ipv6_conn_point o c)
unfolding use_ipv6_conn_point
use_ipv6_conn_point-IsPlaced from none c h = h
use_ipv6_conn_point-IsPlaced from (some (flags, ip, port)) c h = inl (refl, (ip, 0, refl))

-- The connection that the data items make.
abbrev pub Follows :
    Connection
    → ℕ
    → IpAddress
    → Option ℕ
    → Option (ℕ × List ℕ)
    → Option (ℕ × List ℕ × ℕ)
    → Option (ℕ × List ℕ)
    → Option (ℕ × List ℕ × ℕ)
    → Type 0
Follows c default from port ipv4 ipv4_point ipv6 ipv6_point =
    (c.dest_ip
      ≡ last_of from
          (added_v4 ipv4 ∷ point_v4 ipv4_point ∷ added_v6 ipv6 ∷ point_v6 ipv6_point ∷ []))
    × (c.session_port ≡ last_of default (port ∷ point_port ipv4_point ∷ point_port ipv6_point ∷ []))
    × IsPlaced from c

used-Follows :
    (from : IpAddress) (start : Connection) (port : Option ℕ) (ipv4 : Option (ℕ × List ℕ))
    (ipv4_point : Option (ℕ × List ℕ × ℕ)) (ipv6 : Option (ℕ × List ℕ))
    (ipv6_point : Option (ℕ × List ℕ × ℕ))
    → start.dest_ip ≡ from
    → start.may_need_scope_id ≡ false
    → Follows
        (use_ipv6_conn_point ipv6_point (
          use_ipv6_address ipv6
            (use_ipv4_conn_point ipv4_point (use_ipv4_address ipv4 (use_port port start)))))
        start.session_port
        from
        port
        ipv4
        ipv4_point
        ipv6
        ipv6_point
used-Follows from start port ipv4 ipv4_point ipv6 ipv6_point e1 e2 =
    let c1 = use_port port start in
    let c2 = use_ipv4_address ipv4 c1 in
    let c3 = use_ipv4_conn_point ipv4_point c2 in
    let c4 = use_ipv6_address ipv6 c3 in
    let (ports, dests, needs) = use_port-port port start in
    let first : IsEarly from c1 = (needs ∙ e2, inr (dests ∙ e1)) in
    let early =
      use_ipv4_conn_point-IsEarly from ipv4_point c2
        (use_ipv4_address-IsEarly from ipv4 c1 first) in
    let placed : IsPlaced from c3 = inr early in
    (
      use_ipv6_conn_point-dest ipv6_point c4
          ∙ ap (λ x. last_of x (point_v6 ipv6_point ∷ []))
              (use_ipv6_address-dest ipv6 c3
                ∙ ap (λ x. last_of x (added_v6 ipv6 ∷ []))
                    (use_ipv4_conn_point-dest ipv4_point c2
                      ∙ ap (λ x. last_of x (point_v4 ipv4_point ∷ []))
                          (use_ipv4_address-dest ipv4 c1
                            ∙ ap (λ x. last_of x (added_v4 ipv4 ∷ [])) (dests ∙ e1)))
                ∙ sym (last_of-step _ (added_v6 ipv6) []))
          ∙ sym (last_of-step _ (added_v6 ipv6) (point_v6 ipv6_point ∷ []))
          ∙ sym (last_of-step _ (point_v4 ipv4_point) (added_v6 ipv6 ∷ point_v6 ipv6_point ∷ []))
          ∙ sym (
              last_of-step from (added_v4 ipv4)
                (point_v4 ipv4_point ∷ added_v6 ipv6 ∷ point_v6 ipv6_point ∷ [])),
      use_ipv6_conn_point-port ipv6_point c4
          ∙ ap (λ x. last_of x (point_port ipv6_point ∷ []))
              (use_ipv6_address-port ipv6 c3
                ∙ use_ipv4_conn_point-port ipv4_point c2
                ∙ ap (λ x. last_of x (point_port ipv4_point ∷ []))
                    (use_ipv4_address-port ipv4 c1 ∙ ports))
          ∙ sym (last_of-step _ (point_port ipv4_point) (point_port ipv6_point ∷ []))
          ∙ sym (
              last_of-step start.session_port port
                (point_port ipv4_point ∷ point_port ipv6_point ∷ [])),
      use_ipv6_conn_point-IsPlaced from ipv6_point c4
          (use_ipv6_address-IsPlaced from ipv6 c3 placed),
    )

module _ (d : Discovery) where
  -- When the data items of an offer are read, the address to connect to is the one that the last of
  -- IPv4_Address, IPv4_Connection_Point, IPv6_Address and IPv6_Connection_Point names, where an
  -- address that is dropped names none, or else the sender of the offer; the port is that of the last
  -- of Port and the two connection points, or else the configured one. An address that may need a
  -- scope id is an IPv6 address, so that to_v6() does not throw, and any other is an IPv4 address or
  -- that of the sender.
  pub connection_point_lem :
      (pm : ProtocolMessage) (from : IpAddress) (c : Connection)
      → connection_point d pm from ≡ ok c
      → (port : Option ℕ) × (ipv4 : Option (ℕ × List ℕ)) × (ipv4_point : Option (ℕ × List ℕ × ℕ))
        × (ipv6 : Option (ℕ × List ℕ)) × (ipv6_point : Option (ℕ × List ℕ × ℕ)) × (if_found
              (get_port d.protocfg pm)
            ≡ ok port)
        × (if_found (get_ipv4_address d.protocfg pm) ≡ ok ipv4)
        × (if_found (get_ipv4_conn_point d.protocfg pm) ≡ ok ipv4_point)
        × (if_found (get_ipv6_address d.protocfg pm) ≡ ok ipv6)
        × (if_found (get_ipv6_conn_point d.protocfg pm) ≡ ok ipv6_point)
        × Follows c d.session_port from port ipv4 ipv4_point ipv6 ipv6_point
  unfolding connection_point
  connection_point_lem pm from c h = >>=-elim (if_found (get_port d.protocfg pm)) _ h λ port e0 h0.
      >>=-elim (if_found (get_ipv4_address d.protocfg pm)) _ h0 λ ipv4 e1 h1.
        >>=-elim (if_found (get_ipv4_conn_point d.protocfg pm)) _ h1 λ ipv4_point e2 h2.
          >>=-elim (if_found (get_ipv6_address d.protocfg pm)) _ h2 λ ipv6 e3 h3.
            >>=-elim (if_found (get_ipv6_conn_point d.protocfg pm)) _ h3 λ ipv6_point e4 h4. (
              port,
              ipv4,
              ipv4_point,
              ipv6,
              ipv6_point,
              e0,
              e1,
              e2,
              e3,
              e4,
              subst (λ x. Follows x d.session_port from port ipv4 ipv4_point ipv6 ipv6_point)
                  (ok-injective h4)
                  (used-Follows from
                    (record {
                      dest_ip = from;
                      session_port = d.session_port;
                      may_need_scope_id = false;
                    })
                    port ipv4 ipv4_point ipv6 ipv6_point refl refl),
            )
