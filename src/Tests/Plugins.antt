-- ===== src/Tests/Plugins.antt =====
-- The registration of the plugins.
use embedded_client.Types.{sky_magic, Status}
use embedded_client.Plugins.Register.Links.{AddedTo, sky_plugin_add-AddedTo}
use embedded_client.Plugins.Register.{Tables, sky_register_plugins, sky_plugin_add, walk}
use embedded_client.Common.{refl, [], ◌∷◌, ℕ, arith, ◌≡◌}

-- The tables of the two plugins, at addresses 1 and 2, not linked yet.
abbrev two_tables : Tables
two_tables = λ a. record { magic = sky_magic; next = 0 }

sky_plugin_add-AddedTo_example : AddedTo (1 ∷ []) 2 (sky_plugin_add 1 two_tables 1 2)
sky_plugin_add-AddedTo_example =
    sky_plugin_add-AddedTo 1 two_tables 1 (1 ∷ []) 2 (refl, λ e. omega arith, refl, tt, refl)
      (λ e. omega arith) refl (omega arith)

abbrev order_of : Tables × ℕ × Status → ℕ × ℕ × ℕ
order_of (h, root, ret) = (root, (h 1).next, (h 2).next)

-- The AP plugin comes first, also if the plugins are registered again.
registered_once : order_of (sky_register_plugins 2 two_tables 0 1 2) ≡ (1, 2, 0)
unfolding sky_register_plugins sky_plugin_add walk
registered_once = refl

registered_twice :
    let (h, root, ret) = sky_register_plugins 2 two_tables 0 1 2 in
    order_of (sky_register_plugins 2 h root 1 2) ≡ (1, 2, 0)
unfolding sky_register_plugins sky_plugin_add walk
registered_twice = refl
