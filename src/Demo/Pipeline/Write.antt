-- ===== src/Demo/Pipeline/Write.antt =====
-- What `Write` of internal/demo/pipeline.go has done when it returns, whether it fails or not.
use go_gedung_peristiwa.Prelude.{
  ℕ, ◌+◌, ◌≡◌, refl, ap, List, [], ◌∷◌, ◌++◌, Option, none, some, length, arith, inl, inr,
  Option-cases,
}
use go_gedung_peristiwa.Assoc.{Assoc, lookup, insert}
use go_gedung_peristiwa.Gtfs.Position.{VehiclePosition, key}
use go_gedung_peristiwa.Demo.Pipeline.{
  Pipeline, Storage, WriteError, unknown_agency, encode_failed, put_failed, IngestRecord,
  vehicle_key, keep_newest, ingest_record, push_ingest, note, write_from, write,
}

-- What is noted of a list of positions, the first one first.
unfoldable pub see_all : List VehiclePosition → Assoc VehiclePosition → Assoc VehiclePosition
see_all [] m = m
see_all (pos ∷ ps) m = see_all ps (keep_newest (vehicle_key pos) pos m)

unfoldable pub ingest_all : List VehiclePosition → List IngestRecord → List IngestRecord
ingest_all [] buf = buf
ingest_all (pos ∷ ps) buf = ingest_all ps (push_ingest (ingest_record pos) buf)

-- `p'` is `p` with exactly the positions `ps` noted.
pub record Noted {Handle : Type 0} (ps : List VehiclePosition) (p p' : Pipeline Handle)
    : Type 0 where
  pub events : p'.event_count ≡ p.event_count + length ps
  pub seen : p'.vehicle_seen ≡ see_all ps p.vehicle_seen
  pub ingested : p'.ingest_buf ≡ ingest_all ps p.ingest_buf
  pub polled : p'.last_poll ≡ p.last_poll

module _ {Handle Value Failure : Type 0} (db : Storage Handle Value Failure) where
  -- A put to the handle that the position's agency has, and the handles after it.
  pub record PutOf (pos : VehiclePosition) (aws aws' : Assoc Handle) (failed : Option Failure)
      : Type 0 where
    pub handle : Handle
    pub value : Value
    pub found : lookup pos.agency aws ≡ some handle
    pub encoded : db.value_bytes pos ≡ some value
    pub outcome : (db.put (key pos) value handle).1 ≡ failed
    pub kept : aws' ≡ insert pos.agency (db.put (key pos) value handle).0 aws

  -- From these handles, each position is put in order and without an error.
  pub data Puts : List VehiclePosition → Assoc Handle → Assoc Handle → Type 0 where
    nothing : (aws : Assoc Handle) → Puts [] aws aws
    first :
        (pos : VehiclePosition) (ps : List VehiclePosition) (aws aws1 aws2 : Assoc Handle)
        → PutOf pos aws aws1 none
        → Puts ps aws1 aws2
        → Puts (pos ∷ ps) aws aws2

  -- Why nothing of the list is put any more, the handles after that, and the error of Write.
  pub data Stops
      : List VehiclePosition
        → Assoc Handle
        → Assoc Handle
        → Option (WriteError Failure)
        → Type 0 where
    all_put : (aws : Assoc Handle) → Stops [] aws aws none
    no_handle :
        (pos : VehiclePosition) (ps : List VehiclePosition) (aws : Assoc Handle)
        → lookup pos.agency aws ≡ none
        → Stops (pos ∷ ps) aws aws (some (unknown_agency pos.agency))
    not_encoded :
        (pos : VehiclePosition) (ps : List VehiclePosition) (aws : Assoc Handle) (aw : Handle)
        → lookup pos.agency aws ≡ some aw
        → db.value_bytes pos ≡ none
        → Stops (pos ∷ ps) aws aws (some encode_failed)
    not_put :
        (pos : VehiclePosition) (ps : List VehiclePosition) (aws aws' : Assoc Handle) (e : Failure)
        → PutOf pos aws aws' (some e)
        → Stops (pos ∷ ps) aws aws' (some (put_failed e))

  -- The positions split into those that were put and those that were not.
  pub record Wrote (positions : List VehiclePosition) (puts : ℕ) (p : Pipeline Handle)
      (r : Pipeline Handle × ℕ × Option (WriteError Failure)) : Type 0 where
    pub done : List VehiclePosition
    pub rest : List VehiclePosition
    pub handles : Assoc Handle
    pub split : positions ≡ done ++ rest
    pub put : Puts done p.agencies handles
    pub stopped : Stops rest handles r.0.agencies r.2
    pub counted : r.1 ≡ puts + length done
    pub noted : Noted done p r.0

  -- A write that stops at the first position.
  stopped_at :
      (pos : VehiclePosition) (rest : List VehiclePosition) (puts : ℕ) (p : Pipeline Handle)
      (aws : Assoc Handle) (e : WriteError Failure)
      → Stops (pos ∷ rest) p.agencies aws (some e)
      → Wrote (pos ∷ rest) puts p (record p { agencies = aws }, puts, some e)
  unfolding see_all ingest_all
  stopped_at pos rest puts p aws e s = record {
    done = [];
    rest = pos ∷ rest;
    handles = p.agencies;
    split = refl;
    put = nothing p.agencies;
    stopped = s;
    counted = omega arith;
    noted = record { events = omega arith; seen = refl; ingested = refl; polled = refl };
  }

  Noted-first :
      (pos : VehiclePosition) (ps : List VehiclePosition) (aws : Assoc Handle)
      (p p' : Pipeline Handle)
      → Noted ps (note pos (record p { agencies = aws })) p'
      → Noted (pos ∷ ps) p p'
  unfolding see_all ingest_all note
  Noted-first pos ps aws p p' n = record {
    events = omega (arith, n.events);
    seen = n.seen;
    ingested = n.ingested;
    polled = n.polled;
  }

  write_from-Wrote :
      (positions : List VehiclePosition) (puts : ℕ) (p : Pipeline Handle)
      → Wrote positions puts p (write_from db positions puts p)
  unfolding write_from see_all ingest_all note
  write_from-Wrote [] puts p = record {
    done = [];
    rest = [];
    handles = p.agencies;
    split = refl;
    put = nothing p.agencies;
    stopped = all_put p.agencies;
    counted = omega arith;
    noted = record { events = omega arith; seen = refl; ingested = refl; polled = refl };
  }
  write_from-Wrote (pos ∷ ps) puts p = elim (Option-cases (lookup pos.agency p.agencies)) [
    | inl e ↦
        rw (e, write_from) (stopped_at pos ps puts p p.agencies _ (no_handle pos ps p.agencies e))
    | inr (aw, e) ↦ elim (Option-cases (db.value_bytes pos)) [
      | inl f ↦
          rw (e, f, write_from)
            (stopped_at pos ps puts p p.agencies _ (not_encoded pos ps p.agencies aw e f))
      | inr (val, f) ↦
          let aws = insert pos.agency (db.put (key pos) val aw).0 p.agencies in
          elim (Option-cases (db.put (key pos) val aw).1) [
            | inr (x, g) ↦
                rw (e, f, g, write_from)
                  (stopped_at pos ps puts p aws _ (
                    not_put pos ps p.agencies aws x (record {
                      handle = aw;
                      value = val;
                      found = e;
                      encoded = f;
                      outcome = g;
                      kept = refl;
                    })))
            | inl g ↦
                let w = write_from-Wrote ps (puts + 1) (note pos (record p { agencies = aws })) in
                rw (e, f, g, write_from)
                  (record {
                    done = pos ∷ w.done;
                    rest = w.rest;
                    handles = w.handles;
                    split = ap (◌∷◌ pos) w.split;
                    put =
                        first pos w.done p.agencies aws w.handles
                          (record {
                            handle = aw;
                            value = val;
                            found = e;
                            encoded = f;
                            outcome = g;
                            kept = refl;
                          })
                          w.put;
                    stopped = w.stopped;
                    counted = omega (arith, w.counted);
                    noted = Noted-first pos w.done aws p _ w.noted;
                  })
          ]
    ]
  ]

  -- `Write` puts the positions in order, each to the handle of its agency and without an error, up
  -- to one that has no handle, cannot be encoded or is refused by its put, whose error it
  -- returns; without such a one, it puts all and returns no error. Its count is that of the
  -- positions that were put, and the live state notes exactly them.
  pub write-Wrote :
      (positions : List VehiclePosition) (p : Pipeline Handle)
      → Wrote positions 0 p (write db positions p)
  unfolding write
  write-Wrote positions p = write_from-Wrote positions 0 p
