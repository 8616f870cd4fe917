-- ===== src/Auth/Calls.antt =====
-- What reaches the auth service: its HTTP handlers, and the seeding of the administrators when it
-- starts, as calls that a history is made of. A call that fails keeps what it had already written.
use ticketbus.Base.{Uuid, String, List, [], ◌∷◌, ⊤}
use ticketbus.Db.{World, done, ◌>>◌}
use ticketbus.Auth.Domain.{Tables, Auth}
use ticketbus.Auth.Service.{
  Env, AdminSeed, register, register_organizer, login, refresh_token, delete_user, seed_admins,
}

pub data Call : Type 0 where
  registers : Env → String → String → String → String → Call
  registers_organizer : Env → String → String → String → String → String → String → String → Call
  logs_in : Env → String → String → Call
  refreshes : Env → String → Call
  deletes : Uuid → Call
  seeds : List (Env × AdminSeed) → Call

unfoldable pub handle : Call → Auth ⊤
handle (registers env email password name role) = do register env email password name role; done
handle (registers_organizer env email password name organizer description link contact) = do
  register_organizer env email password name organizer description link contact
  done
handle (logs_in env email password) = do login env email password; done
handle (refreshes env raw) = do refresh_token env raw; done
handle (deletes id) = delete_user id
handle (seeds admins) = do seed_admins admins; done

unfoldable pub run : List Call → World Tables → World Tables
run [] w = w
run (c ∷ cs) w = run cs (handle c w).1
