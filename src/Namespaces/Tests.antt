-- ===== src/Namespaces/Tests.antt =====
-- Runs of the namespace code, and its theorems at inputs that meet their hypotheses.
use stream_relay.Prelude.{◌≡◌, refl, [], ◌∷◌, codes, insert, lookup, Bytes-discrete}
use stream_relay.Namespaces.{
  Namespace, NamespaceManager, new_namespace_manager, register, get_by_channel, get_by_channel_from,
  catches, channel_name, strip_prefix, validate_channel, chat_namespace, public_namespace,
}

abbrev chat : Namespace
chat = chat_namespace (codes "chat:")

abbrev vip : Namespace
vip = public_namespace (codes "chat:vip:")

abbrev manager : NamespaceManager
manager = record new_namespace_manager { namespaces = (codes "chat", chat) ∷ [] }

program : Unit {0}
unfolding register insert lookup Bytes-discrete get_by_channel get_by_channel_from catches
    channel_name strip_prefix validate_channel
program = tt

manager_built : register new_namespace_manager chat ≡ manager
unfolding program
manager_built = refl

routed :
    (get_by_channel manager (codes "chat:general") ≡ chat)
    × (get_by_channel manager (codes "chat:") ≡ manager.default_ns)
    × (strip_prefix chat (codes "chat:general") ≡ codes "general")
unfolding program
routed = (refl, refl, refl)
