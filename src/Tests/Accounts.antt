-- ===== src/Tests/Accounts.antt =====
-- A table with one user, whose hashes are the password with a mark.
use abstruse.Prelude.{◌==◌, ◌≡◌, refl, true, [], ◌∷◌, none, some, ok, str_eq, cat, if◌then◌else◌}
use abstruse.Store.Users.{
  User, Outside, find, update, hash_password, check_password_hash, update_password,
}

abbrev pub admin : User
admin = record {
  id = 1;
  login = "admin";
  email = "a@b";
  password = "old#";
  name = "Admin";
  avatar = "";
  role = "admin";
  active = true;
}

abbrev pub one_user : Outside User
one_user = record {
  by_id = λ id s. (s, if id == s.id then none else some "record not found");
  by_name = λ name s. (s, none);
  by_role = λ role s. (s, none);
  users = λ s. (s ∷ [], none);
  insert = λ u s. (ok tt, u);
  updates = λ u s. (ok tt, u);
  remove = λ u s. (ok tt, s);
  is_not_found = λ e. str_eq e "record not found";
  default_cost = 10;
  generate = λ p c s. (ok (cat p "#"), s);
  compare = λ hash p. if str_eq hash (cat p "#") then none else some "mismatch";
}

new_password_taken :
    update_password one_user 1 "old" "new" admin ≡ (ok tt, record admin { password = "new#" })
unfolding update_password find update hash_password check_password_hash
new_password_taken = refl
