-- ===== src/Shell/Packages.antt =====
-- The commands of the console on packages (src/server/shell.cpp): each works on Pacman, and all but
-- install and remove then have the server take the new checksum of the code (refreshMd5).
use free_kill.Base.{String, List, [], ◌∷◌}
use free_kill.World.{World, Env}
use free_kill.Server.Rooms.{refresh_md5}
use free_kill.PackMan.{
  Git, Package, PackMan, download_new_pack, remove_pack, upgrade_pack, enable_pack, disable_pack,
}

module _ (g : Git) (sum : g.Disk → List String → String) where
  -- Pacman and the server, both of which the console reaches. `sum` is calcFileMD5 on the packages
  -- and the list of those that are disabled.
  pub record Host : Type 0 where
    pub pacman : PackMan g
    pub world : World

  -- ServerInstance->refreshMd5()
  pub refresh : Env → Host → Host
  refresh env h = record h {
    world = refresh_md5 env h.world (sum h.pacman.disk h.pacman.disabled_packs);
  }

  pub install_command : Host → List String → Host
  install_command h [] = h
  install_command h (url ∷ _) = record h { pacman = download_new_pack g h.pacman url }

  pub remove_command : Host → List String → Host
  remove_command h [] = h
  remove_command h (pack ∷ _) = record h { pacman = remove_pack g h.pacman pack }

  upgrade_all : PackMan g → List Package → PackMan g
  upgrade_all m [] = m
  upgrade_all m (p ∷ ps) = upgrade_all (upgrade_pack g m p.name) ps

  -- Without a name all packages are upgraded.
  pub upgrade_command : Env → Host → List String → Host
  unfolding refresh upgrade_all
  upgrade_command env h [] =
      refresh env (record h { pacman = upgrade_all h.pacman h.pacman.packages })
  upgrade_command env h (pack ∷ _) =
      refresh env (record h { pacman = upgrade_pack g h.pacman pack })

  pub enable_command : Env → Host → List String → Host
  unfolding refresh
  enable_command env h [] = h
  enable_command env h (pack ∷ _) = refresh env (record h { pacman = enable_pack g h.pacman pack })

  pub disable_command : Env → Host → List String → Host
  unfolding refresh
  disable_command env h [] = h
  disable_command env h (pack ∷ _) =
      refresh env (record h { pacman = disable_pack g h.pacman pack })
