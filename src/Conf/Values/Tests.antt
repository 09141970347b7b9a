-- ===== src/Conf/Values/Tests.antt =====
-- Values of internal/conf on concrete texts.
use rtc_simple_server.Base.{◌≡◌, refl, none, some, List, [], ◌∷◌}
use rtc_simple_server.Conf.General.{Protocol, udp, udp_multicast, tcp, basic, digest, stdout, any}
use rtc_simple_server.Conf.Values.{
  sort, same_protocol, marshal_protocols, unmarshal_protocols, auth_method_of,
  unmarshal_auth_methods, unmarshal_log_destinations, unmarshal_credential,
}
use rtc_simple_server.Conf.Values.Laws.{
  unmarshal_protocols-marshal_protocols, unmarshal_log_destinations_twice,
}

protocols_written :
    marshal_protocols (udp ∷ tcp ∷ udp_multicast ∷ []) ≡ "multicast" ∷ "tcp" ∷ "udp" ∷ []
unfolding marshal_protocols sort
protocols_written = refl

-- A list that is set twice is appended to.
methods_twice : unmarshal_auth_methods (basic ∷ []) ("digest" ∷ []) ≡ some (basic ∷ digest ∷ [])
unfolding unmarshal_auth_methods auth_method_of
methods_twice = refl

credential_refused : unmarshal_credential "a b" ≡ none
unfolding unmarshal_credential
credential_refused = refl

unmarshal_protocols-marshal_protocols_example :
    (qs : List Protocol) × (unmarshal_protocols (marshal_protocols (udp ∷ tcp ∷ [])) ≡ some qs)
    × ((p : Protocol) → any (same_protocol p) qs ≡ any (same_protocol p) (udp ∷ tcp ∷ []))
unmarshal_protocols-marshal_protocols_example =
    unmarshal_protocols-marshal_protocols (udp ∷ tcp ∷ [])

unmarshal_log_destinations_twice_example :
    unmarshal_log_destinations (stdout ∷ []) ("file" ∷ "stdout" ∷ []) ≡ none
unmarshal_log_destinations_twice_example =
    unmarshal_log_destinations_twice (stdout ∷ []) ("file" ∷ "stdout" ∷ []) stdout refl refl
