-- ===== src/Wireguard/Request.antt =====
-- The request, read back line by line.
use mathlib.Core.List.{append_assoc}
use mathlib.Core.Path.{ap₂}
use wireproxy_homerun.Config.Device.{PeerConfig, DeviceConfig}
use wireproxy_homerun.Net.{Prefix}
use wireproxy_homerun.Prelude.{
  ℤ, Each, any-append, ◌==◌, ◌≡◌, refl, sym, false, Option, none, some, List, [], ◌∷◌, ◌++◌, map,
  arith, pos, negsuc, suc, ap, ◌∙◌, inl, append-nil,
}
use wireproxy_homerun.Std.{Text, codes, has_byte, split_byte, cut, cut-append, split_byte-cons}
use wireproxy_homerun.Std.Decimal.{itoa, show_nat-has_byte}
use wireproxy_homerun.Wireguard.{
  field, create_ipc_request, write_peer, write_ips, write_allowed, write_endpoint,
  write_listen_port, write_peers,
}

abbrev listen_settings : Option ℤ → List (Text × Text)
listen_settings none = []
listen_settings (some port) = (codes "listen_port", itoa port) ∷ []

abbrev endpoint_settings : Option Text → List (Text × Text)
endpoint_settings none = []
endpoint_settings (some endpoint) = (codes "endpoint", endpoint) ∷ []

module _ (show : Prefix → Text) where
  abbrev ip_settings : List Prefix → List (Text × Text)
  ip_settings ips = map (λ ip. (codes "allowed_ip", show ip)) ips

  -- A peer without allowed addresses is allowed all of both families.
  abbrev allowed_settings : List Prefix → List (Text × Text)
  allowed_settings [] =
      (codes "allowed_ip", codes "0.0.0.0/0") ∷ (codes "allowed_ip", codes "::0/0") ∷ []
  allowed_settings (ip ∷ ips) = ip_settings (ip ∷ ips)

  abbrev peer_settings : List PeerConfig → List (Text × Text)
  peer_settings [] = []
  peer_settings (peer ∷ peers) =
      (codes "public_key", peer.public_key)
        ∷ (codes "persistent_keepalive_interval", itoa peer.keep_alive)
        ∷ (codes "preshared_key", peer.pre_shared_key)
        ∷ endpoint_settings peer.endpoint
      ++ (allowed_settings peer.allowed_ips ++ peer_settings peers)

  -- The settings of a device, in the order of the request.
  abbrev pub settings : DeviceConfig → List (Text × Text)
  settings conf =
      (codes "private_key", conf.secret_key) ∷ listen_settings conf.listen_port
      ++ peer_settings conf.peers

-- A text on one line.
abbrev pub IsLine : Text → Type 0
IsLine t = has_byte 10 t ≡ false

abbrev pub IsLineIfSome : Option Text → Type 0
IsLineIfSome none = Unit {0}
IsLineIfSome (some t) = IsLine t

pub record IsPlainPeer (peer : PeerConfig) : Type 0 where
  pub public_key : IsLine peer.public_key
  pub pre_shared_key : IsLine peer.pre_shared_key
  pub endpoint : IsLineIfSome peer.endpoint

-- A key and a value that stand on one line and can be told apart there.
abbrev pub IsSetting : Text × Text → Type 0
IsSetting (k, v) = (has_byte b'=' k ≡ false) × IsLine k × IsLine v

unfoldable pub printed : List (Text × Text) → Text
printed [] = []
printed ((k, v) ∷ rest) = field k v ++ printed rest

printed-append : (l m : List (Text × Text)) → printed (l ++ m) ≡ printed l ++ printed m
unfolding printed
printed-append [] m = refl
printed-append ((k, v) ∷ l) m =
    rw (printed-append l m) (sym (append_assoc (field k v) (printed l) (printed m)))

joined-IsLine : (k v : Text) → IsLine k → IsLine v → IsLine (k ++ b'=' ∷ v)
joined-IsLine k v a b = ground (arith, any-append (λ c. c == 10) k (b'=' ∷ v))

pub split-printed :
    (k v : Text) (l : List (Text × Text))
    → IsSetting (k, v)
    → split_byte 10 (printed ((k, v) ∷ l)) ≡ (k ++ b'=' ∷ v) ∷ split_byte 10 (printed l)
unfolding printed field split_byte
split-printed k v l (q, a, b) =
    rw (append_assoc (k ++ b'=' ∷ v) (10 ∷ []) (printed l))
      (split_byte-cons 10 (k ++ b'=' ∷ v) (printed l) (joined-IsLine k v a b))

-- Every line is cut at its first equals sign; behind the last line break stands an empty line.
read-printed :
    (l : List (Text × Text))
    → Each IsSetting l
    → map (cut b'=') (split_byte 10 (printed l)) ≡ map some l ++ none ∷ []
unfolding printed split_byte cut
read-printed [] h = refl
read-printed ((k, v) ∷ l) ((q, a, b), r) =
    rw (split-printed k v l (q, a, b)) (cc (cut-append b'=' k v q, read-printed l r))

itoa-IsLine : (n : ℤ) → IsLine (itoa n)
unfolding itoa
itoa-IsLine (pos n) = show_nat-has_byte 10 n (inl (omega arith))
itoa-IsLine (negsuc n) = show_nat-has_byte 10 (suc n) (inl (omega arith))

write_listen_port-printed :
    (port : Option ℤ) → write_listen_port port ≡ printed (listen_settings port)
unfolding write_listen_port printed
write_listen_port-printed none = refl
write_listen_port-printed (some port) = sym (append-nil (field (codes "listen_port") (itoa port)))

write_endpoint-printed :
    (endpoint : Option Text) → write_endpoint endpoint ≡ printed (endpoint_settings endpoint)
unfolding write_endpoint printed
write_endpoint-printed none = refl
write_endpoint-printed (some endpoint) = sym (append-nil (field (codes "endpoint") endpoint))

Each-append :
    (l m : List (Text × Text)) → Each IsSetting l → Each IsSetting m → Each IsSetting (l ++ m)
Each-append [] m h k = k
Each-append (x ∷ l) m (e, h) k = (e, Each-append l m h k)

listen-IsSetting : (port : Option ℤ) → Each IsSetting (listen_settings port)
unfolding codes
listen-IsSetting none = tt
listen-IsSetting (some port) = ((refl, refl, itoa-IsLine port), tt)

endpoint-IsSetting :
    (endpoint : Option Text) → IsLineIfSome endpoint → Each IsSetting (endpoint_settings endpoint)
unfolding codes
endpoint-IsSetting none h = tt
endpoint-IsSetting (some endpoint) h = ((refl, refl, h), tt)

regroup :
    (a b c d e w : Text) → (a ++ (b ++ (c ++ (d ++ e)))) ++ w ≡ a ++ (b ++ (c ++ (d ++ (e ++ w))))
regroup a b c d e w = simp append_assoc

module _ (show : Prefix → Text) where
  write_ips-printed : (ips : List Prefix) → write_ips show ips ≡ printed (ip_settings show ips)
  unfolding write_ips printed
  write_ips-printed [] = refl
  write_ips-printed (ip ∷ ips) =
      ap (◌++◌ (field (codes "allowed_ip") (show ip))) (write_ips-printed ips)

  write_allowed-printed :
      (ips : List Prefix) → write_allowed show ips ≡ printed (allowed_settings show ips)
  unfolding write_allowed printed
  write_allowed-printed [] =
      ap (◌++◌ (field (codes "allowed_ip") (codes "0.0.0.0/0")))
        (sym (append-nil (field (codes "allowed_ip") (codes "::0/0"))))
  write_allowed-printed (ip ∷ ips) = write_ips-printed (ip ∷ ips)

  write_peers-printed :
      (peers : List PeerConfig) → write_peers show peers ≡ printed (peer_settings show peers)
  unfolding write_peers write_peer printed
  write_peers-printed [] = refl
  write_peers-printed (peer ∷ peers) =
      regroup (field (codes "public_key") peer.public_key)
        (field (codes "persistent_keepalive_interval") (itoa peer.keep_alive))
        (field (codes "preshared_key") peer.pre_shared_key) (write_endpoint peer.endpoint)
        (write_allowed show peer.allowed_ips) (write_peers show peers)
      ∙ cc (
        write_endpoint-printed peer.endpoint,
        write_allowed-printed peer.allowed_ips,
        write_peers-printed peers,
        printed-append (endpoint_settings peer.endpoint)
            (allowed_settings show peer.allowed_ips ++ peer_settings show peers),
        printed-append (allowed_settings show peer.allowed_ips) (peer_settings show peers),
      )

  create_ipc_request-printed :
      (conf : DeviceConfig)
      → (create_ipc_request show conf).ipc_request ≡ printed (settings show conf)
  unfolding create_ipc_request printed
  create_ipc_request-printed conf = ap (◌++◌ (field (codes "private_key") conf.secret_key)) (
      ap₂ ◌++◌ (write_listen_port-printed conf.listen_port) (write_peers-printed conf.peers)
      ∙ sym (printed-append (listen_settings conf.listen_port) (peer_settings show conf.peers)))

  module _ (plain : (ip : Prefix) → IsLine (show ip)) where
    ip-IsSetting : (ips : List Prefix) → Each IsSetting (ip_settings show ips)
    unfolding codes
    ip-IsSetting [] = tt
    ip-IsSetting (ip ∷ ips) = ((refl, refl, plain ip), ip-IsSetting ips)

    allowed-IsSetting : (ips : List Prefix) → Each IsSetting (allowed_settings show ips)
    unfolding codes
    allowed-IsSetting [] = ((refl, refl, refl), ((refl, refl, refl), tt))
    allowed-IsSetting (ip ∷ ips) = ip-IsSetting (ip ∷ ips)

    peer-IsSetting :
        (peers : List PeerConfig)
        → Each IsPlainPeer peers
        → Each IsSetting (peer_settings show peers)
    unfolding codes
    peer-IsSetting [] h = tt
    peer-IsSetting (peer ∷ peers) (h, r) = (
      (refl, refl, h.public_key),
      (
        (refl, refl, itoa-IsLine peer.keep_alive),
        (
          (refl, refl, h.pre_shared_key),
          Each-append _ _ (endpoint-IsSetting peer.endpoint h.endpoint)
              (Each-append _ _ (allowed-IsSetting peer.allowed_ips) (peer-IsSetting peers r)),
        ),
      ),
    )

    -- The request that configures the device, read back line by line with every line cut at its
    -- first equals sign, gives the settings of the device and of every peer, all of them and in
    -- their order, if the keys, the endpoints and the prefixes hold no line break.
    pub create_ipc_request-read :
        (conf : DeviceConfig)
        → IsLine conf.secret_key
        → Each IsPlainPeer conf.peers
        → map (cut b'=') (split_byte 10 (create_ipc_request show conf).ipc_request)
          ≡ map some (settings show conf) ++ none ∷ []
    unfolding codes
    create_ipc_request-read conf s h =
        ap (λ t. map (cut b'=') (split_byte 10 t)) (create_ipc_request-printed conf)
        ∙ read-printed (settings show conf) (
          (refl, refl, s),
          Each-append _ _ (listen-IsSetting conf.listen_port) (peer-IsSetting conf.peers h),
        )
