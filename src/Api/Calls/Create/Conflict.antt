-- ===== src/Api/Calls/Create/Conflict.antt =====
-- What `CreateTable` and `CreateStagingTable` of src/uc_api.cpp make of a name that is taken.
use Prim.Native.String.{◌++◌ as ◌<>◌}
use unity_catalog.Base.{
  ◌∙◌, ap, sym, subst, ◌≡◌, ◌↔◌, refl, String, Option, none, some, true, false, Text, inl, inr,
  ◌++◌, lit,
}
use unity_catalog.Json.{Yyjson, get?, obj?}
use unity_catalog.Result.{
  Result, ok, err, entry_already_exists, Result-cases, err-injective, ok-injective,
}
use unity_catalog.Result.Exec as Exec
use unity_catalog.Result.Exec.{continue, pure, lift}
use unity_catalog.Http.{Http, Net, Response, make_request_resp}
use unity_catalog.Api.Data.{Credentials, TableName, CommittedTable}
use unity_catalog.Api.Errors.{check_error}
use unity_catalog.Api.Errors.Taken.{
  Avoids, >>=-Avoids, num-Avoids, str-Avoids, ReportsTaken, creation_outcome-taken,
  creation_outcome-ok, creation_outcome-accepts,
}
use unity_catalog.Api.Fields.{try_get_num, try_get_str}
use unity_catalog.Api.Values.{Printer, read_string_map}
use unity_catalog.Api.Values.Taken.{read_string_map-Avoids}
use unity_catalog.Api.Calls.{delta_schema_url}
use unity_catalog.Api.Calls.Create.{
  request_creation, creation_body, create_table, create_staging_table, read_staging_table,
  read_protocol,
}

-- A method behind which nothing throws that exception throws it as the method does.
finished-taken :
    {S A B P : Type 0} (r : Result A × S) (f : A → Result B)
    → ((a : A) → Avoids (f a))
    → ((r.0 ≡ err entry_already_exists) ↔ P)
    → ((continue r.0 (λ a. lift (f a)) r.1).0 ≡ err entry_already_exists) ↔ P
finished-taken (ok a, s) f h iff = (λ q. absurd (h a q), λ p. absurd (cc (iff.1 p)))
finished-taken (err e, s) f h iff =
    (λ q. iff.0 (ap err (err-injective q)), λ p. ap err (err-injective (iff.1 p)))

finished-ok :
    {S A P : Type 0} (r : Result A × S)
    → ((a : A) → r.0 ≡ ok a → P)
    → (P → (a : A) × (r.0 ≡ ok a))
    → ((continue r.0 (λ _. pure tt) r.1).0 ≡ ok tt) ↔ P
finished-ok (ok a, s) f g = (λ q. f a refl, λ p. refl)
finished-ok (err e, s) f g = (λ q. absurd (cc q), λ p. absurd (cc (g p).1))

module _ (json : Yyjson) (printer : Printer json.Val) (http : Http) (c : Credentials) where
  open json use {Val}

  -- The request that makes a table, and its answer.
  abbrev pub Posted : String → Text → Net http → Result Response
  Posted url body n = (make_request_resp http url c.token body (some 409) n).0

  -- The answer reports that the name is taken.
  abbrev pub Taken : Result Response → Type 0
  Taken m = (resp : Response) × (m ≡ ok resp) × ReportsTaken json (json.read resp.body)

  -- The answer is a success, and its body holds no error.
  abbrev pub Accepted : Result Response → Type 0
  Accepted m =
      (resp : Response) × (m ≡ ok resp)
      × (resp.success ≡ true)
      × (check_error json (json.read resp.body) ≡ ok none)

  request_creation-Taken :
      (url : String) (body : Text) (n : Net http)
      → Avoids (Posted url body n)
      → ((request_creation json printer http c url body n).0 ≡ err entry_already_exists)
        ↔ Taken (Posted url body n)
  unfolding request_creation
  request_creation-Taken url body n sent = elim (Result-cases (Posted url body n)) [
    | inl (x, e) ↦
        rw (e, request_creation)
          (λ q. absurd (sent (e ∙ ap err (err-injective q))), λ t. absurd (cc t.1))
    | inr (resp, e) ↦
        rw (e, request_creation)
          (
            (λ q.
                (resp, refl, (creation_outcome-taken json (json.read resp.body) resp.success).0 q)),
            λ t.
                (creation_outcome-taken json (json.read resp.body) resp.success).1
                  (subst (λ r. ReportsTaken json (json.read r.body)) (sym (ok-injective t.1)) t.2),
          )
  ]

  request_creation-ok :
      (url : String) (body : Text) (n : Net http) {root : Option Val}
      → (request_creation json printer http c url body n).0 ≡ ok root
      → (resp : Response) × (Posted url body n ≡ ok resp)
        × (resp.success ≡ true)
        × (json.read resp.body ≡ root)
        × (check_error json (json.read resp.body) ≡ ok none)
  unfolding request_creation
  request_creation-ok url body n h =
      let (resp, n', e, h1) =
        Exec.>>=-eq-ok (make_request_resp http url c.token body (some 409)) _ n h in
      let (same, success, fine) = creation_outcome-ok json (json.read resp.body) resp.success h1 in
      (resp, ap (λ r. r.0) e, success, same, fine)

  request_creation-Accepted :
      (url : String) (body : Text) (n : Net http)
      → Accepted (Posted url body n)
      → (root : Option Val) × ((request_creation json printer http c url body n).0 ≡ ok root)
  unfolding request_creation
  request_creation-Accepted url body n (resp, e, success, fine) = (
    json.read resp.body,
    rw (e, request_creation, success) (creation_outcome-accepts json (json.read resp.body) fine),
  )

  read_protocol-Avoids : (protocol : Option Val) → Avoids (read_protocol json printer protocol)
  unfolding read_protocol
  read_protocol-Avoids none = λ q. cc
  read_protocol-Avoids (some protocol) =
      >>=-Avoids (try_get_num json (some protocol) "min-reader-version" false) _
        (num-Avoids json (some protocol) "min-reader-version" false)
        λ reader.
          >>=-Avoids (try_get_num json (some protocol) "min-writer-version" false) _
            (num-Avoids json (some protocol) "min-writer-version" false) λ writer q. cc

  read_staging_table-Avoids : (root : Option Val) → Avoids (read_staging_table json printer root)
  unfolding read_staging_table
  read_staging_table-Avoids root =
      >>=-Avoids (try_get_str json root "table-id" true) _ (str-Avoids json root "table-id" true)
        λ table_id.
          >>=-Avoids (try_get_str json root "location" true) _
            (str-Avoids json root "location" true)
            λ location.
              >>=-Avoids
                (read_protocol json printer (obj? json (get? json root "required-protocol"))) _
                (read_protocol-Avoids _)
                λ protocol.
                  >>=-Avoids (read_string_map json printer (get? json root "required-properties")) _
                    (read_string_map-Avoids json printer _)
                    λ required.
                      >>=-Avoids
                        (read_string_map json printer (get? json root "suggested-properties")) _
                        (read_string_map-Avoids json printer _) λ suggested q. cc

  -- Where the request itself can be written and does not fail by that very exception: CreateTable
  -- throws ENTRY_ALREADY_EXISTS exactly if the answer, a success or a 409, reports that the name is
  -- taken; it returns exactly if the answer is a success whose body holds no error. So a 409 is
  -- never taken for a table that was created, whatever its body.
  pub create_table-Taken :
      (wire_schema : Text → Result Text) (t : TableName) (table : CommittedTable)
      (table_type : String) (n : Net http) (body : Text)
      → creation_body json printer wire_schema table table_type ≡ ok body
      → Avoids (Posted (delta_schema_url c t <> "/tables") body n)
      → (((create_table json printer http c wire_schema t table table_type n).0
            ≡ err entry_already_exists)
          ↔ Taken (Posted (delta_schema_url c t <> "/tables") body n))
        × (((create_table json printer http c wire_schema t table table_type n).0 ≡ ok tt)
            ↔ Accepted (Posted (delta_schema_url c t <> "/tables") body n))
  unfolding create_table
  create_table-Taken wire_schema t table table_type n body written sent =
      let url = delta_schema_url c t <> "/tables" in
      let r = request_creation json printer http c url body n in
      rw (written, create_table)
        (
          finished-taken r (λ root. ok tt) (λ root q. cc) (request_creation-Taken url body n sent),
          finished-ok r
              (λ root e.
                let (resp, answer, success, _, fine) = request_creation-ok url body n e in
                (resp, answer, success, fine))
              (request_creation-Accepted url body n),
        )

  -- Where the table's name can be encoded and the request does not itself fail by that exception:
  -- CreateStagingTable throws ENTRY_ALREADY_EXISTS exactly if the answer, a success or a 409,
  -- reports that the name is taken; nothing that it reads of the answer behind the verdict throws
  -- it.
  pub create_staging_table-Taken :
      (t : TableName) (n : Net http) (name : Text)
      → printer.encode (lit t.table_name) ≡ ok name
      → let url = delta_schema_url c t <> "/staging-tables" in
        let body = lit "{\"name\": " ++ name ++ lit "}" in
        Avoids (Posted url body n)
        → ((create_staging_table json printer http c t n).0 ≡ err entry_already_exists)
          ↔ Taken (Posted url body n)
  unfolding create_staging_table
  create_staging_table-Taken t n name written sent =
      let url = delta_schema_url c t <> "/staging-tables" in
      let body = lit "{\"name\": " ++ name ++ lit "}" in
      rw (written, create_staging_table)
        (finished-taken (request_creation json printer http c url body n)
          (read_staging_table json printer) read_staging_table-Avoids
          (request_creation-Taken url body n sent))
