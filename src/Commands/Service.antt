-- ===== src/Commands/Service.antt =====
-- src/client.cpp: what the commands rely on at the master and at the nodes; `Commands/Cluster.antt`
-- has the handlers behind it.
use dfss.Base.{◌≡◌, Bool, not, ◌&&◌, ◌||◌, ◌⊎◌, false, Option, some, List, ◌++◌}
use dfss.Text.{Str, str_eq, codes}
use dfss.Text.Split.{has_byte, terminated}
use dfss.Replication.Removal.{reply}
use dfss.Commands.{Remote}

-- `holds w ip name` is whether the node `ip` has the file; `places w name` is where it belongs.
pub record Service {W : Type 0} (r : Remote W) (me : Str) : Type 0 where
  pub holds : W → Str → Str → Bool
  pub places : W → Str → Option (List Str)
  pub forced :
      (w : W) (name : Str) (ips : List Str)
      → has_byte b';' name ≡ false
      → places w name ≡ some ips
      → (r.put_request (codes "1;" ++ name) w).0 ≡ terminated b';' ips
  pub offered :
      (w : W) (name : Str) (ips : List Str)
      → has_byte b';' name ≡ false
      → places w name ≡ some ips
      → ((r.put_request (codes "0;" ++ name) w).0 ≡ codes "CONFLICT")
        ⊎ ((r.put_request (codes "0;" ++ name) w).0 ≡ terminated b';' ips)
  pub request_holds : (w : W) (t ip n : Str) → holds (r.put_request t w).1 ip n ≡ holds w ip n
  pub request_places : (w : W) (t n : Str) → places (r.put_request t w).1 n ≡ places w n
  pub check :
      (w : W) (ip name : Str)
      → has_byte b';' name ≡ false
      → (r.monitor_request (name ++ codes ";CHECK") ip w).0 ≡ reply (holds w ip name) me
  pub check_keeps :
      (w : W) (ip name : Str)
      → has_byte b';' name ≡ false
      → (r.monitor_request (name ++ codes ";CHECK") ip w).1 ≡ w
  pub delete_holds :
      (w : W) (ip name i n : Str)
      → has_byte b';' name ≡ false
      → holds (r.monitor_request (name ++ codes ";DELETE") ip w).1 i n
        ≡ (not (str_eq i ip && str_eq n name) && holds w i n)
  pub delete_keeps : (w : W) (t ip n : Str) → places (r.monitor_request t ip w).1 n ≡ places w n
  pub upload_holds :
      (w : W) (ip name new i n : Str)
      → holds (r.upload ip name new w) i n ≡ ((str_eq i ip && str_eq n new) || holds w i n)
  pub download_holds :
      (w : W) (ip name new i n : Str) → holds (r.download ip name new w) i n ≡ holds w i n
  pub upload_keeps : (w : W) (ip name new n : Str) → places (r.upload ip name new w) n ≡ places w n
