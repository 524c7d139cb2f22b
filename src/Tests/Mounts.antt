-- ===== src/Tests/Mounts.antt =====
-- Storages, mounts and /etc/fstab.
use cangling_update.Base.{true, false, [], ◌∷◌, ◌++◌, none, some, ◌≡◌, ◌⊎◌, refl, any, is_empty}
use cangling_update.Text.{Text, text, trim, trim_matches, is_whitespace, lines}
use cangling_update.Storage.Normalize.{
  Storage, StorageBody, normalize, check_external, kind_external, kind_host_share,
}
use cangling_update.Storage.Normalize.Accepted.{
  IsExternal, IsHostShare, Account, OneLine, AsTyped, FromBefore,
}
use cangling_update.Storage.Normalize.Sound.{normalize_sound}
use cangling_update.Storage.Fstab.{is_entry, is_mounted, entry, persist_fstab}
use cangling_update.Storage.Fstab.Laws.{blank_mount_point}
use cangling_update.Storage.Fstab.Twice.{CleanFields, persist_fstab_twice}

abbrev form : StorageBody
form = record {
  name = text " backup ";
  kind = kind_external;
  protocol = text "cifs";
  host_id = text "h1";
  host_name = text "node";
  server = text "10.0.0.9";
  share = text "export";
  path = text "/srv";
  target_dir = text "/mnt/backup";
  username = text "backup";
  password = [];
  options = [];
}

-- The storage as it was, with the password that the edit leaves alone.
abbrev before_edit : Storage
before_edit = record {
  id = text "s1";
  name = text "old";
  kind = kind_external;
  protocol = text "cifs";
  host_id = [];
  host_name = text "本机";
  server = text "10.0.0.8";
  share = text "media";
  path = [];
  target_dir = text "/mnt/old";
  username = text "backup";
  password = text "secret";
  options = [];
  status = text "mounted";
  message = text "ok";
  created_at = text "long ago";
  updated_at = text "long ago";
}

abbrev accepted : Storage
accepted = record {
  id = text "s1";
  name = text "backup";
  kind = kind_external;
  protocol = text "cifs";
  host_id = [];
  host_name = text "本机";
  server = text "10.0.0.9";
  share = text "export";
  path = [];
  target_dir = text "/mnt/backup";
  username = text "backup";
  password = text "secret";
  options = [];
  status = text "mounted";
  message = text "ok";
  created_at = text "long ago";
  updated_at = text "now";
}

normalize_sound_example :
    (is_empty accepted.name ≡ false)
    × OneLine accepted.password
    × (((accepted.kind ≡ kind_external)
          × IsExternal accepted
          × (accepted.server ≡ trim form.server)
          × (accepted.share ≡ trim form.share)
          × Account form (some before_edit) accepted)
        ⊎ ((accepted.kind ≡ kind_host_share)
            × IsHostShare accepted
            × (accepted.path ≡ trim form.path)
            × (accepted.host_id ≡ trim form.host_id)
            × (accepted.protocol ≡ text "cifs"
                → (accepted.share ≡ trim form.share) × Account form (some before_edit) accepted)))
    × AsTyped form accepted
    × FromBefore (some before_edit) (text "s2") (text "now") accepted
normalize_sound_example =
    normalize_sound (λ h. none) form (some before_edit) (text "s2") (text "now")
      (unfold normalize check_external trim_matches is_whitespace text in refl)

abbrev source : Text
source = text "//nas/media"

abbrev opts : Text
opts = text "vers=2.1,guest,uid=0,gid=0,file_mode=0660,dir_mode=0770"

abbrev table : Text
table = text "UUID=1 / ext4 defaults 0 0\n"

blank_mount_point_example :
    (is_mounted table (text "/mnt/my disk") ≡ false)
    × (persist_fstab table (text "nfs") (text "h:/x") (text "/mnt/my disk") (text "rw") ≡ (
      table
          ++ (text "\n# cangling-storage "
              ++ (text "/mnt/my disk"
                  ++ (b'\n'
                      ∷ (entry (text "nfs") (text "h:/x") (text "/mnt/my disk") (text "rw")
                          ++ b'\n' ∷ [])))),
      true,
    ))
blank_mount_point_example =
    blank_mount_point table table (text "nfs") (text "h:/x") (text "/mnt/my disk") (text "rw")
      (unfold is_whitespace text in refl)

clean : CleanFields (text "nfs") (text "h:/x") (text "/mnt/x") (text "rw")
unfolding text is_whitespace
clean = record {
  some_src = refl;
  src_word = refl;
  some_mnt = refl;
  mnt_word = refl;
  no_comment = refl;
  fstype_line = (refl, refl);
  opts_line = (refl, refl);
}

abbrev stored_table : Text
stored_table = (persist_fstab table (text "nfs") (text "h:/x") (text "/mnt/x") (text "rw")).0

persist_fstab_twice_example :
    (any (is_entry (text "/mnt/x")) (lines stored_table) ≡ true)
    × (persist_fstab stored_table (text "nfs") (text "h:/x") (text "/mnt/x") (text "rw")
        ≡ (stored_table, false))
persist_fstab_twice_example = persist_fstab_twice table clean (unfold text in refl)
