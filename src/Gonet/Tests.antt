-- ===== src/Gonet/Tests.antt =====
-- A host with a loopback interface and two others, and the address it tells.
use grain.Base.{◌≡◌, refl, none, some, true, false, some, List, [], ◌∷◌}
use grain.Gonet.{
  get_top_inner_ip, inner_ips, enumerate_inner_ips, select_inner_ips, filter_ips, stable_sort,
  insert, is_before, Interface,
}

-- 127.0.0.1; 8.8.8.8 and 169.254.0.1; 192.168.0.7
abbrev interfaces : List Interface
interfaces =
    record {
      is_up = true;
      is_loopback_interface = true;
      addrs = some ((127 ∷ 0 ∷ 0 ∷ 1 ∷ []) ∷ []);
    }
    ∷ record {
      is_up = true;
      is_loopback_interface = false;
      addrs = some ((8 ∷ 8 ∷ 8 ∷ 8 ∷ []) ∷ (169 ∷ 254 ∷ 0 ∷ 1 ∷ []) ∷ []);
    }
    ∷ record {
      is_up = true;
      is_loopback_interface = false;
      addrs = some ((192 ∷ 168 ∷ 0 ∷ 7 ∷ []) ∷ []);
    }
    ∷ []

-- the private one
chosen : (get_top_inner_ip none (some interfaces)).1 ≡ some (192 ∷ 168 ∷ 0 ∷ 7 ∷ [])
unfolding get_top_inner_ip inner_ips enumerate_inner_ips select_inner_ips filter_ips stable_sort
    insert is_before
chosen = refl
